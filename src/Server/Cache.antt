-- ===== src/Server/Cache.antt =====
-- The link that a server thread of libdsys/threads.c has cached, against the search of libdsys/ltab.c.
use mathlib.Core.Path.{subst}
use libdsys.Prelude.{
  ℕ, ◌≤◌, ◌<◌, ◌≡◌, refl, ap, ◌∙◌, Bool, Option, none, some, List, ◌∷◌, arith, ◌==◌, ltb,
  if◌then◌else◌, inl, inr, Bool-cases, Option-cases, if_of_false, length,
}
use libdsys.Ltab.{Link, search_links}
use libdsys.Ltab.Destroy.{Apart, Without, channel_before, destroy_found, destroy_absent}
use libdsys.Server.{
  Server, Service, get, kill, echo, num, Answer, sends, kills, prints, passes, blocks, faults,
  on_miss, serve, next, Reached, starts, inserts, serves,
}

-- Tags are apart, and a search for the cached tag finds the cached link.
abbrev Inv : Server → Type 0
Inv s = Apart s.links × ((l : Link) → s.clink ≡ some l → search_links s.links s.ctag ≡ some l)

on_miss_found :
    (s : Server) (cond : Bool) (tag : ℕ) (l : Link)
    → search_links s.links tag ≡ some l
    → on_miss s cond tag ≡ sends l cond (record s { clink = some l; ctag = tag })
unfolding on_miss
on_miss_found s cond tag l e = rw (on_miss, e) refl

on_miss_absent :
    (s : Server) (cond : Bool) (tag : ℕ)
    → search_links s.links tag ≡ none
    → on_miss s cond tag ≡ blocks
unfolding on_miss
on_miss_absent s cond tag e = rw (on_miss, e) refl

-- With a cached link of another tag, or with none, the list is searched.
data Missed (s : Server) (tag : ℕ) : Type 0 where
  misses : ((cond : Bool) → serve s (get cond tag) ≡ on_miss s cond tag) → Missed s tag
  hits :
      (k : Link)
      → search_links s.links tag ≡ some k
      → ((cond : Bool) → serve s (get cond tag) ≡ sends k cond s)
      → Missed s tag

look : (s : Server) (tag : ℕ) → Inv s → Missed s tag
unfolding serve
look s tag (a, c) = elim (Option-cases s.clink) [
  | inl empty ↦ misses (λ cond. simp (serve, empty))
  | inr (k, held) ↦ elim (Bool-cases (tag == s.ctag)) [
    | inl same ↦
        let is : tag ≡ s.ctag = ground arith in
        hits k (ap (search_links s.links) is ∙ c k held) (λ cond. simp (serve, held, same))
    | inr other ↦ misses (λ cond. simp (serve, held, other))
  ]
]

-- A request for data is served as without the cache.
get_found :
    (s : Server) (cond : Bool) (tag : ℕ) (l : Link)
    → Inv s
    → search_links s.links tag ≡ some l
    → (t : Server) × (serve s (get cond tag) ≡ sends l cond t) × (t.links ≡ s.links) × Inv t
get_found s cond tag l (a, c) e = elim (look s tag (a, c)) [
  | misses m ↦ (
    record s { clink = some l; ctag = tag },
    m cond ∙ on_miss_found s cond tag l e,
    refl,
    (a, λ k q. e ∙ q),
  )
  | hits k f m ↦
      let same : k ≡ l = cc in (s, m cond ∙ ap (λ (j : Link). sends j cond s) same, refl, (a, c))
]

get_absent :
    (s : Server) (cond : Bool) (tag : ℕ)
    → Inv s
    → search_links s.links tag ≡ none
    → serve s (get cond tag) ≡ blocks
get_absent s cond tag i e = elim (look s tag i) [
  | misses m ↦ m cond ∙ on_miss_absent s cond tag e
  | hits k f m ↦ absurd cc
]

kill_found :
    (s : Server) (tag : ℕ) (l : Link)
    → Inv s
    → search_links s.links tag ≡ some l
    → (t : Server) × (serve s (kill tag) ≡ kills (channel_before s.links tag) l.channel t)
      × Without s.links tag t.links
      × Inv t
unfolding serve
kill_found s tag l (a, c) e =
    let (rest, r, w, b) = destroy_found s.links tag l a e in
    (record s { links = rest; clink = none }, rw (serve, r) refl, w, (b, λ k q. absurd cc))

kill_absent :
    (s : Server) (tag : ℕ)
    → search_links s.links tag ≡ none
    → (length s.links < 2 → serve s (kill tag) ≡ faults)
      × (2 ≤ length s.links → serve s (kill tag) ≡ blocks)
unfolding serve
kill_absent s tag e =
    let (short, long) = destroy_absent s.links tag e in
    (λ h. rw (serve, short h) refl, λ h. rw (serve, long h) refl)

kill_halts :
    (s : Server) (tag : ℕ) → search_links s.links tag ≡ none → next (serve s (kill tag)) ≡ none
unfolding next
kill_halts s tag e =
    let (short, long) = kill_absent s tag e in
    elim (Bool-cases (ltb (length s.links) 2)) [
      | inl few ↦ ap next (short (ground arith))
      | inr many ↦ ap next (long (ground arith))
    ]

fresh_link :
    (links : List Link) (l k : Link) (tag : ℕ)
    → search_links links l.tag ≡ none
    → search_links links tag ≡ some k
    → search_links (l ∷ links) tag ≡ some k
unfolding search_links
fresh_link links l k tag e f = elim (Bool-cases (l.tag == tag)) [
  | inl same ↦
      let is : l.tag ≡ tag = ground arith in
      let at : search_links links l.tag ≡ search_links links tag = ap (search_links links) is in
      absurd cc
  | inr other ↦ if_of_false (l.tag == tag) _ _ other ∙ f
]

-- An answer that goes on to a known thread.
follow :
    {u t : Server} → (answer : Answer) → next answer ≡ some u → next answer ≡ some t → Inv u → Inv t
follow {u} {t} answer e f i = let same : u ≡ t = cc in subst Inv same i

stuck : {t : Server} → {a : Option Server} → a ≡ none → a ≡ some t → Inv t
stuck e f = absurd cc

serve-Inv : (s t : Server) (r : Service) → Inv s → next (serve s r) ≡ some t → Inv t
unfolding serve next
serve-Inv s t (get cond tag) i e = elim (Option-cases (search_links s.links tag)) [
  | inl absent ↦ stuck (ap next (get_absent s cond tag i absent)) e
  | inr (l, found) ↦
      let (u, q, same, j) = get_found s cond tag l i found in
      follow (serve s (get cond tag)) (ap next q) e j
]
serve-Inv s t (kill tag) i e = elim (Option-cases (search_links s.links tag)) [
  | inl absent ↦ stuck (kill_halts s tag absent) e
  | inr (l, found) ↦
      let (u, q, w, j) = kill_found s tag l i found in follow (serve s (kill tag)) (ap next q) e j
]
serve-Inv s t echo i e = follow (prints s) refl e i
serve-Inv s t num i e = follow (passes s) refl e i

pub Reached-Inv : (s : Server) → Reached s → Inv s
unfolding Apart search_links
Reached-Inv _ starts = (tt, λ l e. absurd cc)
Reached-Inv _ (inserts {s} l r fresh) =
    let (a, c) = Reached-Inv s r in ((fresh, a), λ k q. fresh_link s.links l k s.ctag fresh (c k q))
Reached-Inv _ (serves {s} {t} r h e) = serve-Inv s t r (Reached-Inv s h) e

-- In any state that a server thread reaches from its start, where the computation thread inserts links
-- only with tags that are not in use: a request for data is served from the link that a search of the
-- whole list finds, whatever the thread has cached, and waits if there is none; a request to kill calls a
-- destructor on the channel of the link that a search finds, but the destructor is that of the role of
-- the channel whose link stands just before it, if there is one and its own otherwise, and after it every
-- other tag is found as before and this one is not; and for a tag that is not found the thread waits if
-- the list has two links or more, but follows a null pointer otherwise.
pub serve_lem :
    (s : Server)
    → Reached s
    → (cond : Bool) (tag : ℕ)
    → (search_links s.links tag ≡ none → serve s (get cond tag) ≡ blocks)
      × ((l : Link)
          → search_links s.links tag ≡ some l
          → (t : Server) × (serve s (get cond tag) ≡ sends l cond t) × (t.links ≡ s.links))
      × ((l : Link)
          → search_links s.links tag ≡ some l
          → (t : Server) × (serve s (kill tag) ≡ kills (channel_before s.links tag) l.channel t)
            × ((u : ℕ)
                → search_links t.links u ≡ (if u == tag then none else search_links s.links u)))
      × (search_links s.links tag ≡ none
          → (length s.links < 2 → serve s (kill tag) ≡ faults)
            × (2 ≤ length s.links → serve s (kill tag) ≡ blocks))
serve_lem s r cond tag =
    let i = Reached-Inv s r in
    (
      get_absent s cond tag i,
      λ l e. let (t, q, same, j) = get_found s cond tag l i e in (t, q, same),
      λ l e. let (t, q, w, j) = kill_found s tag l i e in (t, q, w),
      kill_absent s tag,
    )
