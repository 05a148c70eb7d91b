-- ===== src/Server/Dns/Capacity.antt =====
-- server/src/server.rs: the bound of the DNS cache.
use native.Mathlib.Decide.{ℕ_discrete}
use juicity_rs.Base.{ℕ, ◌≤◌, ◌<◌, ◌≡◌, [], ◌∷◌, Option, none, some, length, length-put, arith}
use juicity_rs.Server.Dns.{
  max_udp_dns_cache, Cache, move_last, swap_remove, make_room, Dns, Phase, Event, goes_on, resolves,
  fails, expires, enter, store, advance, System, arrives, acts, Reach, here, next, start, calling,
  entering, looking_up, waiting, storing, removing, notifying, returned,
}

length-move_last : (cache : Cache) → length (move_last cache) ≡ length cache
unfolding move_last
length-move_last [] = omega arith
length-move_last (x ∷ []) = omega arith
length-move_last (x ∷ (y ∷ ys)) = ground (arith, length-move_last (y ∷ ys))

length-swap_remove-le : (key : ℕ) (cache : Cache) → length (swap_remove key cache) ≤ length cache
unfolding swap_remove
length-swap_remove-le key [] = omega arith
length-swap_remove-le key ((k, v) ∷ cache) =
    ground (arith, length-move_last cache, length-swap_remove-le key cache)

length-make_room-lt :
    (cache : Cache)
    → length cache ≤ max_udp_dns_cache
    → length (make_room cache) < max_udp_dns_cache
unfolding make_room
length-make_room-lt [] h = omega arith
length-make_room-lt ((k, v) ∷ cache) h = ground (arith, length-move_last cache)

enter-le : (now key : ℕ) (dns : Dns) → length (enter now key dns).0.cache ≤ length dns.cache
unfolding enter
enter-le now key dns = ground (arith, length-swap_remove-le key dns.cache)

store-le :
    (now key resolved : ℕ) (dns : Dns)
    → length dns.cache ≤ max_udp_dns_cache
    → length (store now key resolved dns).cache ≤ max_udp_dns_cache
unfolding store
store-le now key resolved dns h = omega (
  arith,
  length-make_room-lt dns.cache h,
  length-put ℕ_discrete key (resolved, now) (make_room dns.cache),
)

advance-le :
    (e : Event) (key : ℕ) (literal : Option ℕ) (dns : Dns) (ph : Phase)
    → length dns.cache ≤ max_udp_dns_cache
    → length (advance e key literal dns ph).0.0.cache ≤ max_udp_dns_cache
unfolding advance
advance-le (goes_on now) key (some ip) dns calling h = h
advance-le (goes_on now) key none dns calling h = h
advance-le (goes_on now) key literal dns entering h = omega (arith, h, enter-le now key dns)
advance-le (goes_on now) key literal dns (looking_up n) h = h
advance-le (goes_on now) key literal dns (waiting n) h = h
advance-le (goes_on now) key literal dns (storing n a) h = store-le now key a dns h
advance-le (goes_on now) key literal dns (removing n r) h = h
advance-le (goes_on now) key literal dns (notifying n r) h = h
advance-le (goes_on now) key literal dns (returned r) h = h
advance-le (resolves a) key literal dns ph h = h
advance-le fails key literal dns ph h = h
advance-le expires key literal dns ph h = h

-- However lookups, expiries and failures interleave, the cache holds at most 256 names.
pub Reach-cache-le : {s : System} → Reach start s → length s.dns.cache ≤ max_udp_dns_cache
Reach-cache-le here = omega arith
Reach-cache-le (next r (arrives key literal e)) = rw e (Reach-cache-le r)
Reach-cache-le (next {t} r (acts e before after c eq eu)) =
    rw eu (advance-le e c.key c.literal t.dns c.phase (Reach-cache-le r))
