-- ===== src/Url/Query.antt =====
-- `url_split_path_query` (url.c): the path before the first '?', and the query behind it.
use lamseryn.Prelude.{◌+◌, [], ◌∷◌, ◌++◌, ◌≡◌, ◌≢◌, refl, arith, Bytes, length, All, length-append}
use lamseryn.Url.{query_mark, split_path_query}

query_mark-lacks : (s : Bytes) → All (λ c. c ≢ b'?') s → query_mark s ≡ length s
unfolding query_mark
query_mark-lacks [] h = refl
query_mark-lacks (c ∷ s) h = ground (arith, query_mark-lacks s h.1)

query_mark-append : (s q : Bytes) → All (λ c. c ≢ b'?') s → query_mark (s ++ b'?' ∷ q) ≡ length s
unfolding query_mark
query_mark-append [] q h = refl
query_mark-append (c ∷ s) q h = ground (arith, query_mark-append s q h.1)

-- A target without '?' is all path. Where a '?' follows a text without one, that text is the path
-- and all that stands behind the '?' is the query.
pub split_path_query_lem :
    (path query : Bytes)
    → All (λ c. c ≢ b'?') path
    → (split_path_query path ≡ (length path, length path, 0))
      × (split_path_query (path ++ b'?' ∷ query) ≡ (length path, length path + 1, length query))
unfolding split_path_query
split_path_query_lem path query h = ground (
  arith,
  query_mark-lacks path h,
  query_mark-append path query h,
  length-append path (b'?' ∷ query),
)
