-- ===== src/AddressTree/Stale.antt =====
-- src/iptree.h: entries of the cache for a node that is pruned.
use tcpflow.Base.{ℕ, ◌≡◌, refl, Bool, true, false, some, List, [], ◌∷◌, arith}
use tcpflow.AddressTree.{CacheElement, cache_remove, cache_search, same_path, same_prefix}

same_path_refl : (p : List Bool) → same_path p p ≡ true
same_path_refl [] = refl
same_path_refl (true ∷ p) = same_path_refl p
same_path_refl (false ∷ p) = same_path_refl p

same_prefix_refl : (a : List ℕ) → same_prefix a a ≡ true
same_prefix_refl [] = refl
same_prefix_refl (x ∷ a) = ground (arith, same_prefix_refl a)

-- Of two neighbouring entries in use for the node that is removed, the second is still found.
pub cache_search-cache_remove :
    (path : List Bool) (e f : CacheElement) (cache : List CacheElement)
    → e.ptr ≡ some path
    → f.ptr ≡ some path
    → cache_search f.addr (cache_remove path (e ∷ f ∷ cache)) ≡ some path
unfolding cache_search cache_remove
cache_search-cache_remove path e f cache p q =
    ground (arith, p, q, same_path_refl path, same_prefix_refl f.addr)
