-- ===== src/Ltab/Meet.antt =====
-- How the two ends of a channel find each other without a handshake: `bc_sink_create` and
-- `bc_src_create` of libdsys/branch.c number the places of each rank on their own, and the server looks
-- the number up in the table of links of libdsys/ltab.c.
use libdsys.Prelude.{
  ℕ, zero, suc, ◌+◌, ◌-◌, ◌^◌, ◌≤◌, ◌<◌, ◌≡◌, refl, ap, ◌∙◌, Bool, true, ◌&&◌, Option, none, some,
  List, [], ◌∷◌, arith, ltb, leb, if◌then◌else◌, length, get_or, take,
}
use libdsys.Ltab.{Hook, ltab_create, src_tags, link_search, search_links}
use libdsys.Ltab.Tags.{channel_at, in_table}
use libdsys.Ltab.Taking.{times, sink_tag_at}
use libdsys.Ltab.Sinks.{open_sinks, total_times, owner, all_in_table, open_sinks_lem}
use libdsys.Ltab.Srcs.{src_tag_at, tags_given}

-- The sources that a process creates one after the other.
unfoldable pub open_srcs : List Hook → List (List ℕ) → Option (List Hook)
open_srcs hooks [] = some hooks
open_srcs hooks (ranks ∷ srcs) = elim (src_tags hooks ranks) [
  | none ↦ none
  | some taken ↦ open_srcs taken.1 srcs
]

-- How often a rank stands in several lists.
unfoldable pub times_in : ℕ → List (List ℕ) → ℕ
times_in r [] = 0
times_in r (ranks ∷ srcs) = times r ranks + times_in r srcs

unfoldable pub lists_in_table : List (List ℕ) → ℕ → Bool
lists_in_table [] n = true
lists_in_table (ranks ∷ srcs) n = in_table ranks n && lists_in_table srcs n

open_srcs_next :
    (hooks : List Hook) (ranks : List ℕ) (srcs : List (List ℕ)) (tags : List ℕ) (after : List Hook)
    → src_tags hooks ranks ≡ some (tags, after)
    → open_srcs hooks (ranks ∷ srcs) ≡ open_srcs after srcs
unfolding open_srcs
open_srcs_next hooks ranks srcs tags after e = rw (open_srcs, e) refl

open_srcs_lem :
    (hooks : List Hook) (srcs : List (List ℕ)) (r : ℕ)
    → lists_in_table srcs (length hooks) ≡ true
    → src_tag_at hooks r + times_in r srcs < 2 ^ 64
    → (table : List Hook) × (open_srcs hooks srcs ≡ some table)
      × (src_tag_at table r ≡ src_tag_at hooks r + times_in r srcs)
      × (length table ≡ length hooks)
unfolding open_srcs times_in lists_in_table
open_srcs_lem hooks [] r i b = (hooks, refl, omega arith, refl)
open_srcs_lem hooks (ranks ∷ srcs) r i b =
    let (tags, after, g) = tags_given hooks ranks r (ground (arith, i)) (omega (arith, b)) in
    let (table, e, t, n) =
      open_srcs_lem after srcs r (ground (arith, i, g.same_length))
        (omega (arith, g.next_tag, b)) in
    (
      table,
      open_srcs_next hooks ranks srcs tags after g.given ∙ e,
      omega (arith, t, g.next_tag),
      n ∙ g.same_length,
    )

-- A table that has just been made.
length-ltab_create : (n : ℕ) → length (ltab_create n) ≡ n
unfolding ltab_create
length-ltab_create zero = refl
length-ltab_create (suc n) = omega (arith, length-ltab_create n)

fresh_table :
    (n r t : ℕ)
    → (sink_tag_at (ltab_create n) r ≡ 0)
      × (src_tag_at (ltab_create n) r ≡ 0)
      × (channel_at (ltab_create n) r t ≡ none)
unfolding ltab_create link_search search_links
fresh_table zero r t = (refl, refl, refl)
fresh_table (suc n) zero t = (refl, refl, refl)
fresh_table (suc n) (suc r) t = fresh_table n r t

owner_beyond :
    (r : ℕ) (sinks : List (List ℕ × ℕ)) (k : ℕ) → total_times r sinks ≤ k → owner r sinks k ≡ none
unfolding owner total_times
owner_beyond r [] k h = refl
owner_beyond r ((ranks, channel) ∷ sinks) k h =
    ground (arith, owner_beyond r sinks (k - times r ranks) (omega arith))

-- In the table of a process that starts afresh a tag is found at the place that took it.
found_at :
    (b t s : ℕ) (sinks : List (List ℕ × ℕ)) (x old : Option ℕ)
    → s ≡ 0
    → old ≡ none
    → (total_times b sinks ≤ t → owner b sinks t ≡ none)
    → x ≡ (if leb s t && ltb t (s + total_times b sinks) then owner b sinks (t - s) else old)
    → x ≡ owner b sinks t
found_at b t s sinks x old z none_yet beyond e =
    e
    ∙ ap (λ s. if leb s t && ltb t (s + total_times b sinks) then owner b sinks (t - s) else old) z
    ∙ ap (λ d. if leb 0 t && ltb t (0 + total_times b sinks) then owner b sinks (t - 0) else d)
        none_yet
    ∙ ap (λ u. if leb 0 t && ltb t (0 + total_times b sinks) then owner b sinks u else none) at
    ∙ ground (arith, beyond)
  where
    at : t - 0 ≡ t
    at = omega arith

-- Among `n` processes, let `a` create sinks and `b` create sources, each in its own order, for lists of
-- ranks that may name any process any number of times. The tag that `b` takes for a place of `a` in its
-- next source is looked up in the table of `a`. What is found there is the channel of that place for
-- `b` in the sinks of `a` which has as many places for `b` before it as `b` has places for `a` before its
-- own; and nothing is found as long as `a` has not created that many. Fewer than 2 ^ 64 places are assumed.
pub channels_meet :
    (n a b : ℕ) (sinks : List (List ℕ × ℕ)) (srcs : List (List ℕ)) (ranks : List ℕ) (j : ℕ)
    → all_in_table sinks n ≡ true
    → lists_in_table srcs n ≡ true
    → in_table ranks n ≡ true
    → total_times b sinks < 2 ^ 64
    → times_in a srcs + times a ranks < 2 ^ 64
    → j < length ranks
    → get_or ranks j 0 ≡ a
    → (table_a table_b after : List Hook) × (tags : List ℕ) × (open_sinks (ltab_create n) sinks
        ≡ some table_a)
      × (open_srcs (ltab_create n) srcs ≡ some table_b)
      × (src_tags table_b ranks ≡ some (tags, after))
      × (channel_at table_a b (get_or tags j 0)
          ≡ owner b sinks (times_in a srcs + times a (take j ranks)))
channels_meet n a b sinks srcs ranks j in_a in_b in_ranks few_a few_b k place =
    let size : length (ltab_create n) ≡ n = length-ltab_create n in
    let (zero_sink, no_tag, no_channel) = fresh_table n b 0 in
    let (no_sink, zero_src, no_link) = fresh_table n a 0 in
    let (table_a, e, found) =
      open_sinks_lem (ltab_create n) sinks b (ap (all_in_table sinks) size ∙ in_a)
        (omega (arith, zero_sink, few_a)) in
    let (table_b, d, next, long) =
      open_srcs_lem (ltab_create n) srcs a (ap (lists_in_table srcs) size ∙ in_b)
        (omega (arith, zero_src, few_b)) in
    let (tags, after, g) =
      tags_given table_b ranks a (ap (in_table ranks) (long ∙ size) ∙ in_ranks)
        (omega (arith, next, zero_src, few_b)) in
    let number = times_in a srcs + times a (take j ranks) in
    let tag : get_or tags j 0 ≡ number = g.tag_at j k place ∙ omega (arith, next, zero_src) in
    (
      table_a,
      table_b,
      after,
      tags,
      e,
      d,
      g.given,
      ap (channel_at table_a b) tag
          ∙ found_at b number (sink_tag_at (ltab_create n) b) sinks (channel_at table_a b number)
              (channel_at (ltab_create n) b number) zero_sink (fresh_table n b number).2
              (owner_beyond b sinks number) (found number),
    )
