-- ===== src/Iskel/Farming.antt =====
-- Who is the farmer of a farm of libdsys/iskel.c, and what the processes of a farm are connected to.
use libdsys.Prelude.{
  ℕ, ◌-◌, ◌≤◌, ◌≡◌, ◌≢◌, refl, ap, ◌∙◌, Bool, true, false, not, ◌&&◌, Option, some, [], ◌∷◌, arith,
  leb, if◌then◌else◌, length, get_or, length-take,
}
use libdsys.Prelude.Int.{ℤ, pos, eqb, eqb_iff}
use libdsys.Plist.{Plist, plist_isvalid, values, made_of}
use libdsys.Plist.Members.{elem, distinct, plist_iselem_lem}
use libdsys.Plist.Diff.{without}
use libdsys.Iskel.{sink_end, src_end, Dmap, role_pipe, role_pipen, role_collect, role_spread}
use libdsys.Iskel.Hub.{Self, own, nothing, made, at_centre, farmer, worker, Farm, farm_create}
use libdsys.Iskel.Stages.{just, elem-get_or}
use libdsys.Iskel.Star.{OwnList, all_blocks, at_centre_lem, others_lem}

head_of : Plist → ℤ
head_of pl = get_or (values pl) 0 (pos 0)

abbrev farm_at : Plist → ℕ → (ℕ → Dmap) → Option Plist → Farm
farm_at pl f d list = record {
  num = pl.count - 1;
  role = farmer;
  fptr = f;
  src = src_end list (d 0).input role_collect;
  sink = sink_end list (d 0).output (pl.count - 1) role_spread;
}

abbrev worker_at : Plist → ℕ → (ℕ → Dmap) → Bool → Option Plist → Farm
worker_at pl g d mc list = record {
  num = pl.count - 1;
  role = worker;
  fptr = g;
  src = src_end list (d 1).input role_pipe;
  sink = sink_end list (d 1).output (if mc then 1 else 2) (if mc then role_pipe else role_pipen);
}

module _ (me : ℤ) (self : Self) (junk : ℤ) (pl : Plist) (f g : ℕ) (d : ℕ → Dmap) (mc : Bool)
    (valid : plist_isvalid (some pl) ≡ true) (h : 2 ≤ pl.count)
    (inside : elem me (values pl) ≡ true) where
  enough : leb 2 pl.count ≡ true
  enough = ground arith

  as_farmer :
      eqb me (head_of pl) ≡ true
      → farm_create me self (all_blocks junk) (some pl) (some f) (some g) (some d) mc
        ≡ at_centre me self (all_blocks junk) pl (farm_at pl f d)
  unfolding farm_create head_of
  as_farmer is = rw (farm_create, plist_iselem_lem me me pl, inside, valid, enough, is) refl

  as_worker :
      eqb me (head_of pl) ≡ false
      → farm_create me self (all_blocks junk) (some pl) (some f) (some g) (some d) mc
        ≡ (made (worker_at pl g d mc (just junk (head_of pl))), self)
  unfolding farm_create head_of
  as_worker is = rw (farm_create, plist_iselem_lem me me pl, inside, valid, enough, is) refl

-- In a valid list of at least two ranks, none of which stands twice, with memory given, and where
-- `bc_plist_self` is null or the process's own list: the first process of the list, and no other,
-- becomes the farmer, which collects from all the others and spreads to them as many units as there are
-- others. Any other process of the list becomes a worker, which is connected to the farmer alone, with one unit
-- of space with memory copy and two without. A process outside the list gets nothing.
pub farm_lem :
    (me : ℤ) (self : Self) (junk : ℤ) (pl : Plist) (f g : ℕ) (d : ℕ → Dmap) (mc : Bool)
    → OwnList me self
    → plist_isvalid (some pl) ≡ true
    → 2 ≤ pl.count
    → pl.count ≤ length pl.entries
    → distinct (values pl) ≡ true
    → (me ≡ get_or (values pl) 0 (pos 0)
        → (x : Farm) × (list : Plist) × (next : Self) × (farm_create me self
              (all_blocks junk)
              (some pl)
              (some f)
              (some g)
              (some d)
              mc
            ≡ (made x, next))
          × OwnList me next
          × (x.role ≡ farmer)
          × (x.fptr ≡ f)
          × (x.src ≡ src_end (some list) (d 0).input role_collect)
          × (x.sink ≡ sink_end (some list) (d 0).output (pl.count - 1) role_spread)
          × ((v : ℤ) → elem v (values list) ≡ (elem v (values pl) && not (eqb v me))))
      × (elem me (values pl) ≡ true
          → me ≢ get_or (values pl) 0 (pos 0)
          → (x : Farm) × (farm_create me self
                (all_blocks junk)
                (some pl)
                (some f)
                (some g)
                (some d)
                mc
              ≡ (made x, self))
            × (x.role ≡ worker)
            × (x.fptr ≡ g)
            × (x.src ≡ src_end (just junk (get_or (values pl) 0 (pos 0))) (d 1).input role_pipe)
            × (x.sink
                ≡ sink_end
                    (just junk (get_or (values pl) 0 (pos 0)))
                    (d 1).output
                    (if mc then 1 else 2)
                    (if mc then role_pipe else role_pipen)))
      × (elem me (values pl) ≡ false
          → farm_create me self (all_blocks junk) (some pl) (some f) (some g) (some d) mc
            ≡ (nothing, self))
unfolding farm_create head_of
farm_lem me self junk pl f g d mc h valid two long apart = (
  λ e.
      let (p, c, o) = at_centre_lem me self junk pl (farm_at pl f d) h valid apart in
      (
        farm_at pl f d (some (made_of (without (me ∷ []) (values pl)))),
        made_of (without (me ∷ []) (values pl)),
        own p,
        as_farmer me self junk pl f g d mc valid two (inside_head e) ((eqb_iff me (head_of pl)).1 e)
            ∙ c,
        o,
        refl,
        refl,
        refl,
        refl,
        λ v. others_lem me v (values pl),
      ),
  λ inside other. (
    worker_at pl g d mc (just junk (head_of pl)),
    as_worker me self junk pl f g d mc valid two inside (ground (arith, eqb_iff me (head_of pl))),
    refl,
    refl,
    refl,
    refl,
  ),
  λ out. rw (farm_create, plist_iselem_lem me me pl, out, valid) refl,
)
  where
    inside_head : me ≡ get_or (values pl) 0 (pos 0) → elem me (values pl) ≡ true
    inside_head e =
        ap (λ r. elem r (values pl)) e
        ∙ elem-get_or (values pl) 0 (omega (arith, length-take pl.count pl.entries))
