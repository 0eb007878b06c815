-- ===== src/Metrics/Keys.antt =====
-- The keys of the requests: a route and a status code, joined by a NUL and split again.
use fcfeeds.Prelude.{
  ℕ, suc, ◌+◌, ◌≡◌, refl, subst, ap, ◌∙◌, ◌≢◌, ◌⊎◌, inl, inr, List, [], ◌∷◌, ◌++◌, arith,
  Bool-cases, length, take, drop, map, In, All, All-In,
}
use fcfeeds.Prelude.Sort.{sort-In, In-sort}
use fcfeeds.Text.{Text, text_eq, text_eq_iff}
use fcfeeds.Text.Order.{text_le}
use fcfeeds.Metrics.Registry.{
  Counters, Registry, Update, fetched, observed, served, served_stale, gauged, new_registry, bump,
  itoa, http_key, observe_fetch_duration, update, update_all,
}
use fcfeeds.Metrics.Exposition.{sorted_keys, index_nul, split_key}

-- No NUL in a text.
abbrev pub NoNul : Text → Type 0
NoNul s = All (λ c. c ≢ 0) s

index_nul-length : (s t : Text) → NoNul s → index_nul (s ++ 0 ∷ t) ≡ length s
unfolding index_nul
index_nul-length [] t h = refl
index_nul-length (c ∷ s) t (h, hs) = ground (arith, h, index_nul-length s t hs)

take-length : (s t : Text) → take (length s) (s ++ t) ≡ s
take-length [] [] = refl
take-length [] (c ∷ t) = refl
take-length (c ∷ s) t = ap (λ r. c ∷ r) (take-length s t)

drop-length : (s t : Text) → drop (suc (length s)) (s ++ 0 ∷ t) ≡ t
drop-length [] t = refl
drop-length (c ∷ s) t = drop-length s t

split_key-http_key :
    (route : Text) (code : ℕ) → NoNul route → split_key (http_key route code) ≡ (route, itoa code)
unfolding split_key http_key
split_key-http_key route code h =
    let n = index_nul-length route (itoa code) h in
    let first = ap (λ k. take k (route ++ 0 ∷ itoa code)) n ∙ take-length route (0 ∷ itoa code) in
    let next : index_nul (route ++ 0 ∷ itoa code) + 1 ≡ suc (length route) = omega (arith, n) in
    let second = ap (λ k. drop k (route ++ 0 ∷ itoa code)) next ∙ drop-length route (itoa code) in
    cc (first, second)

abbrev keys_of : Counters → List Text
keys_of m = map (λ (e : Text × ℕ). e.0) m

keys_of-bump : (k j : Text) (m : Counters) → In j (keys_of (bump k m)) → In j (keys_of m) ⊎ (j ≡ k)
unfolding bump
keys_of-bump k j [] (inl e) = inr e
keys_of-bump k j [] (inr m) = elim m [ ]
keys_of-bump k j ((i, n) ∷ m) h = elim (Bool-cases (text_eq i k)) [
  | inl e ↦ inl (rw e at h)
  | inr e ↦ ground (arith, rw e at h, keys_of-bump k j m)
]

bump-keys_of : (k j : Text) (m : Counters) → In j (keys_of m) ⊎ (j ≡ k) → In j (keys_of (bump k m))
unfolding bump
bump-keys_of k j [] h = ground (arith, h)
bump-keys_of k j ((i, n) ∷ m) h = elim (Bool-cases (text_eq i k)) [
  | inl e ↦ ground (arith, e, h, text_eq_iff i k)
  | inr e ↦ ground (arith, e, h, bump-keys_of k j m)
]

-- The key is that of a request among the updates.
abbrev pub ServedAs : Text → Update → Type 0
ServedAs k (served route code) = k ≡ http_key route code
ServedAs k e = ⊥

keys_step :
    (r : Registry) (e : Update) (k : Text)
    → In k (keys_of (update r e).http)
    → In k (keys_of r.http) ⊎ ServedAs k e
unfolding update observe_fetch_duration
keys_step r (fetched result) k m = inl m
keys_step r (observed d) k m = inl m
keys_step r (served route code) k m = keys_of-bump (http_key route code) k r.http m
keys_step r served_stale k m = inl m
keys_step r (gauged g) k m = inl m

step_keys :
    (r : Registry) (e : Update) (k : Text)
    → In k (keys_of r.http) ⊎ ServedAs k e
    → In k (keys_of (update r e).http)
unfolding update observe_fetch_duration
step_keys r (fetched result) k m = ground (arith, m)
step_keys r (observed d) k m = ground (arith, m)
step_keys r (served route code) k m = bump-keys_of (http_key route code) k r.http m
step_keys r served_stale k m = ground (arith, m)
step_keys r (gauged g) k m = ground (arith, m)

-- No route of a request has a NUL.
abbrev pub RoutesNoNul : Update → Type 0
RoutesNoNul (served route code) = NoNul route
RoutesNoNul e = Unit

-- The request that a key was counted for.
abbrev pub Request : List Update → Text → Type 0
Request es k = (route : Text) × (code : ℕ) × In (served route code) es × (k ≡ http_key route code)

keys_all :
    (es : List Update) (r : Registry) (k : Text)
    → In k (keys_of (update_all es r).http)
    → In k (keys_of r.http) ⊎ Request es k
unfolding update_all
keys_all [] r k m = inl m
keys_all (e ∷ es) r k m = elim (keys_all es (update r e) k m) [
  | inr (route, code, n, q) ↦ inr (route, code, inr n, q)
  | inl n ↦ elim (keys_step r e k n) [ inl n2 ↦ inl n2 | inr q ↦ inr (counted_for e q) ]
]
  where
    counted_for : (x : Update) → ServedAs k x → Request (x ∷ es) k
    counted_for (served route code) q = (route, code, inl refl, q)
    counted_for (fetched result) q = elim q [ ]
    counted_for (observed d) q = elim q [ ]
    counted_for served_stale q = elim q [ ]
    counted_for (gauged g) q = elim q [ ]

kept_keys :
    (es : List Update) (r : Registry) (k : Text)
    → In k (keys_of r.http)
    → In k (keys_of (update_all es r).http)
unfolding update_all
kept_keys [] r k m = m
kept_keys (e ∷ es) r k m = kept_keys es (update r e) k (step_keys r e k (inl m))

request_keys :
    (es : List Update) (r : Registry) (route : Text) (code : ℕ)
    → In (served route code) es
    → In (http_key route code) (keys_of (update_all es r).http)
unfolding update_all
request_keys [] r route code m = elim m [ ]
request_keys (e ∷ es) r route code (inl q) =
    kept_keys es (update r e) (http_key route code)
      (step_keys r e (http_key route code) (inr (subst (ServedAs (http_key route code)) q refl)))
request_keys (e ∷ es) r route code (inr m) = request_keys es (update r e) route code m

-- After any updates of a new registry, none with a NUL in its route, the sorted keys are those of the
-- requests counted, and each key that is written splits into the route and the status code, in
-- decimal digits, of a request that it was counted for.
pub http_keys_split :
    (es : List Update)
    → All RoutesNoNul es
    → ((k : Text)
        → In k (sorted_keys (update_all es new_registry).http)
        → (route : Text) × (code : ℕ) × In (served route code) es
          × (split_key k ≡ (route, itoa code)))
      × ((route : Text) (code : ℕ)
          → In (served route code) es
          → In (http_key route code) (sorted_keys (update_all es new_registry).http))
unfolding sorted_keys
http_keys_split es clean = (
  split,
  λ route code m.
      sort-In text_le (http_key route code) (keys_of (update_all es new_registry).http)
        (request_keys es new_registry route code m),
)
  where
    split :
        (k : Text)
        → In k (sorted_keys (update_all es new_registry).http)
        → (route : Text) × (code : ℕ) × In (served route code) es
          × (split_key k ≡ (route, itoa code))
    split k m =
        elim (keys_all es new_registry k
          (In-sort text_le k (keys_of (update_all es new_registry).http) m)) [
            | inl n ↦ elim n [ ]
            | inr (route, code, n, q) ↦ (
              route,
              code,
              n,
              ap split_key q
                  ∙ split_key-http_key route code
                      (All-In RoutesNoNul es (served route code) clean n),
            )
          ]
