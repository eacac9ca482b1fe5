-- ===== src/Server/Tests.antt =====
-- A server thread of libdsys/threads.c with two links, and an instance of the theorem.
use libdsys.Prelude.{ℕ, ◌≤◌, ◌<◌, ◌≡◌, refl, true, false, none, some, [], ◌∷◌, ◌==◌, if◌then◌else◌}
use libdsys.Ltab.{Link, new_link, search_links, link_destroy, internal_destroy}
use libdsys.Server.{
  Server, get, kill, sends, kills, blocks, faults, serve, next, on_miss, Reached, starts, inserts,
  serves,
}
use libdsys.Ltab.Destroy.{channel_before}
use libdsys.Server.Cache.{serve_lem}

abbrev older : Link
older = new_link 0 3

abbrev newer : Link
newer = new_link 1 8

-- After the insertion of two links and a request for the older one.
abbrev cached : Server
cached = record { links = newer ∷ older ∷ []; clink = some older; ctag = 0 }

cached-Reached : Reached cached
unfolding serve on_miss next search_links
cached-Reached = serves (get false 0) (inserts newer (inserts older starts refl) refl) refl

-- The older link goes, by the destructor of the newer one's channel.
killed : serve cached (kill 0) ≡ kills 8 3 (record { links = newer ∷ []; clink = none; ctag = 0 })
unfolding serve link_destroy internal_destroy
killed = refl

serve_lem_example :
    (search_links cached.links 1 ≡ none → serve cached (get true 1) ≡ blocks)
    × ((l : Link)
        → search_links cached.links 1 ≡ some l
        → (t : Server) × (serve cached (get true 1) ≡ sends l true t) × (t.links ≡ cached.links))
    × ((l : Link)
        → search_links cached.links 1 ≡ some l
        → (t : Server) × (serve cached (kill 1) ≡ kills (channel_before cached.links 1) l.channel t)
          × ((u : ℕ)
              → search_links t.links u ≡ (if u == 1 then none else search_links cached.links u)))
    × (search_links cached.links 1 ≡ none
        → (2 < 2 → serve cached (kill 1) ≡ faults) × (2 ≤ 2 → serve cached (kill 1) ≡ blocks))
serve_lem_example = serve_lem cached cached-Reached true 1
