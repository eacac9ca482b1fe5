-- ===== src/Ltab/Destroy.antt =====
-- The removal of a link from a list, `__bc_link_destroy` of libdsys/ltab.c.
use libdsys.Prelude.{
  ℕ, ◌≤◌, ◌<◌, ◌≡◌, refl, sym, ap, ◌∙◌, ◌||◌, true, false, none, some, List, [], ◌∷◌, arith, ◌==◌,
  if◌then◌else◌, inl, inr, Bool-cases, if_of_true, if_of_false, length,
}
use libdsys.Ltab.{
  Link, search_links, Removed, crashes, awaits, removed, behind, internal_destroy, link_destroy,
}

-- No tag stands twice.
unfoldable pub Apart : List Link → Type 0
Apart [] = Unit {0}
Apart (l ∷ ls) = (search_links ls l.tag ≡ none) × Apart ls

-- The second list has the links of the first but the one with the tag.
abbrev pub Without : List Link → ℕ → List Link → Type 0
Without links tag rest =
    (t : ℕ) → search_links rest t ≡ (if t == tag then none else search_links links t)

module _ (l : Link) (ls : List Link) (tag : ℕ) where
  drop_head : l.tag == tag ≡ true → search_links ls l.tag ≡ none → Without (l ∷ ls) tag ls
  unfolding search_links
  drop_head e h t = elim (Bool-cases (t == tag)) [
    | inl same ↦
        let same_tag : t ≡ l.tag = ground arith in
        let at : search_links ls t ≡ search_links ls l.tag = ap (search_links ls) same_tag in
        ground (arith, h)
    | inr other ↦ ground arith
  ]

  keep_head :
      (rest : List Link)
      → l.tag == tag ≡ false
      → Without ls tag rest
      → Without (l ∷ ls) tag (l ∷ rest)
  unfolding search_links
  keep_head rest e w t = ground (arith, w t)

  keep-Apart :
      (rest : List Link)
      → search_links ls l.tag ≡ none
      → Without ls tag rest
      → Apart rest
      → Apart (l ∷ rest)
  unfolding Apart
  keep-Apart rest h w a = (ground (arith, w l.tag), a)

-- The channel of the link just before the first one with a tag, or of that one if it is the first.
unfoldable pub channel_before : List Link → ℕ → ℕ
channel_before [] tag = 0
channel_before (l ∷ []) tag = l.channel
channel_before (l ∷ x ∷ ls) tag =
    let rest = channel_before (x ∷ ls) tag in
    if l.tag == tag || x.tag == tag then l.channel else rest

before_here :
    (l : Link) (ls : List Link) (tag : ℕ)
    → l.tag == tag ≡ true
    → channel_before (l ∷ ls) tag ≡ l.channel
unfolding channel_before
before_here l [] tag e = refl
before_here l (x ∷ ls) tag e = rw (e) refl

before_next :
    (l x : Link) (ls : List Link) (tag : ℕ)
    → x.tag == tag ≡ true
    → channel_before (l ∷ x ∷ ls) tag ≡ l.channel
unfolding channel_before
before_next l x ls tag e = ground (arith, e)

before_later :
    (l x : Link) (ls : List Link) (tag : ℕ)
    → l.tag == tag ≡ false
    → x.tag == tag ≡ false
    → channel_before (l ∷ x ∷ ls) tag ≡ channel_before (x ∷ ls) tag
unfolding channel_before
before_later l x ls tag d e = rw (channel_before, d, e) refl

-- A removal that succeeds, by the destructor of one channel's role.
abbrev pub Removes : Removed → List Link → ℕ → Link → ℕ → Type 0
Removes r links tag l by =
    (rest : List Link) × (r ≡ removed by l.channel rest) × Without links tag rest × Apart rest

is_found :
    (x : Link) (ls : List Link) (tag : ℕ) (l : Link)
    → x.tag == tag ≡ true
    → search_links (x ∷ ls) tag ≡ some l
    → x ≡ l
unfolding search_links
is_found x ls tag l e f = ground (arith, e, f)

remove_next :
    (temp x : Link) (ls : List Link) (tag by : ℕ) (l : Link)
    → Apart (temp ∷ x ∷ ls)
    → temp.tag == tag ≡ false
    → x.tag == tag ≡ true
    → search_links (x ∷ ls) tag ≡ some l
    → Removes (removed by x.channel (temp ∷ ls)) (temp ∷ x ∷ ls) tag l by
unfolding Apart search_links
remove_next temp x ls tag by l (h, (k, a)) d e f =
    let w = drop_head x ls tag e k in
    let same : x ≡ l = is_found x ls tag l e f in
    (
      temp ∷ ls,
      ap (λ (m : Link). removed by m.channel (temp ∷ ls)) same,
      keep_head temp (x ∷ ls) tag ls d w,
      keep-Apart temp (x ∷ ls) tag ls h w a,
    )

internal_found :
    (temp : Link) (ls : List Link) (tag : ℕ) (l : Link)
    → Apart (temp ∷ ls)
    → temp.tag == tag ≡ false
    → search_links ls tag ≡ some l
    → Removes (internal_destroy temp ls tag) (temp ∷ ls) tag l (channel_before (temp ∷ ls) tag)
unfolding Apart search_links internal_destroy
internal_found temp [] tag l a d e = absurd cc
internal_found temp (x ∷ []) tag l a d e = elim (Bool-cases (x.tag == tag)) [
  | inl found ↦
      let (rest, r, w, b) = remove_next temp x [] tag temp.channel l a d found e in
      (
        rest,
        if_of_true (x.tag == tag) _ _ found
            ∙ r
            ∙ ap (λ k. removed k l.channel rest) (sym (before_next temp x [] tag found)),
        w,
        b,
      )
  | inr other ↦ absurd (ground (arith, e))
]
internal_found temp (x ∷ y ∷ ls) tag l (h, a) d e = elim (Bool-cases (x.tag == tag)) [
  | inl found ↦
      let (rest, r, w, b) = remove_next temp x (y ∷ ls) tag temp.channel l (h, a) d found e in
      (
        rest,
        if_of_true (x.tag == tag) _ _ found
            ∙ r
            ∙ ap (λ k. removed k l.channel rest) (sym (before_next temp x (y ∷ ls) tag found)),
        w,
        b,
      )
  | inr other ↦
      let (rest, r, w, b) = internal_found x (y ∷ ls) tag l a other (ground (arith, e)) in
      (
        temp ∷ rest,
        if_of_false (x.tag == tag) _ _ other
            ∙ ap (behind temp) r
            ∙ ap (λ k. removed k l.channel (temp ∷ rest))
                (sym (before_later temp x (y ∷ ls) tag d other)),
        keep_head temp (x ∷ y ∷ ls) tag rest d w,
        keep-Apart temp (x ∷ y ∷ ls) tag rest h w b,
      )
]

-- A link that is found is removed, and no other.
pub destroy_found :
    (links : List Link) (tag : ℕ) (l : Link)
    → Apart links
    → search_links links tag ≡ some l
    → Removes (link_destroy links tag) links tag l (channel_before links tag)
unfolding Apart search_links link_destroy
destroy_found [] tag l a e = absurd cc
destroy_found (x ∷ ls) tag l (h, a) e = elim (Bool-cases (x.tag == tag)) [
  | inl found ↦ (
    ls,
    if_of_true (x.tag == tag) _ _ found
        ∙ ap (λ (m : Link). removed x.channel m.channel ls) (is_found x ls tag l found e)
        ∙ ap (λ k. removed k l.channel ls) (sym (before_here x ls tag found)),
    drop_head x ls tag found h,
    a,
  )
  | inr other ↦
      let (rest, r, w, b) = internal_found x ls tag l (h, a) other (ground (arith, e)) in
      (rest, if_of_false (x.tag == tag) _ _ other ∙ r, w, b)
]

internal_absent :
    (temp x : Link) (ls : List Link) (tag : ℕ)
    → search_links (x ∷ ls) tag ≡ none
    → internal_destroy temp (x ∷ ls) tag ≡ awaits
unfolding search_links internal_destroy
internal_absent temp x [] tag e = ground (arith, e)
internal_absent temp x (y ∷ ls) tag e = elim (Bool-cases (x.tag == tag)) [
  | inl found ↦ absurd (ground (arith, e))
  | inr other ↦
      if_of_false (x.tag == tag) _ _ other
      ∙ ap (behind temp) (internal_absent x y ls tag (ground (arith, e)))
]

-- Where no link is found, the removal follows a null pointer in a list of at most one link, and waits in
-- a longer one.
pub destroy_absent :
    (links : List Link) (tag : ℕ)
    → search_links links tag ≡ none
    → (length links < 2 → link_destroy links tag ≡ crashes)
      × (2 ≤ length links → link_destroy links tag ≡ awaits)
unfolding search_links link_destroy internal_destroy
destroy_absent [] tag e = (λ h. refl, λ h. absurd (omega arith))
destroy_absent (x ∷ []) tag e = (λ h. ground (arith, e), λ h. absurd (omega arith))
destroy_absent (x ∷ y ∷ ls) tag e = (
  λ h. absurd (omega arith),
  λ h. elim (Bool-cases (x.tag == tag)) [
    | inl found ↦ absurd (ground (arith, e))
    | inr other ↦
        if_of_false (x.tag == tag) _ _ other ∙ internal_absent x y ls tag (ground (arith, e))
  ],
)
