-- ===== src/Routes/Serving.antt =====
-- Which requests run the handler of a temporary route.
use polarix.Prelude.{
  ℕ, suc, ◌≤◌, ◌≡◌, refl, sym, ap, subst, ◌∙◌, ◌↔◌, ◌⊎◌, inl, inr, true, false, not, ◌||◌, none,
  some, List, [], ◌∷◌, arith, if◌then◌else◌, Bool-cases, Option-cases, Text, same, same_iff,
  same_refl, lookup, lookup-delete, ltb_ℤ,
}
use polarix.Routes.{
  Reply, Request, TemporaryRoute, handled, method_not_allowed, not_found, serve_all, serve_found,
  serve_temporary_route,
}

serve_found-handled :
    (items : List (Text × TemporaryRoute)) (r : Request) (found route : TemporaryRoute)
    → (serve_found items r found).1 ≡ handled route
    → (found ≡ route)
      × (route.plugin_id ≡ r.plugin_id)
      × (ltb_ℤ r.now route.expires_at ≡ true)
      × (r.method ≡ route.method)
unfolding serve_found
serve_found-handled items r found route h = (
  ground (arith, h),
  ground (arith, h, same_iff found.plugin_id r.plugin_id),
  ground (arith, h),
  ground (arith, h, same_iff r.method found.method),
)

-- How many of the requests for the token ran a handler.
unfoldable pub runs_of : Text → List Request → List Reply → ℕ
runs_of t (r ∷ rs) (handled route ∷ xs) =
    let rest = runs_of t rs xs in if same r.token t then suc rest else rest
runs_of t (r ∷ rs) (x ∷ xs) = runs_of t rs xs
runs_of t _ _ = 0

serve-keeps :
    (t : Text) (items : List (Text × TemporaryRoute)) (r : Request)
    → lookup t items ≡ none
    → lookup t (serve_temporary_route items r).0 ≡ none
unfolding serve_temporary_route serve_found
serve-keeps t items r gone = elim (Option-cases (lookup r.token items)) [
  | inl e ↦ rw (e, serve_temporary_route) (ground (arith, lookup-delete r.token t items, gone))
  | inr (route, e) ↦
      rw (e, serve_temporary_route) (ground (arith, lookup-delete r.token t items, gone))
]

serve-gone :
    (items : List (Text × TemporaryRoute)) (r : Request)
    → lookup r.token items ≡ none
    → (serve_temporary_route items r).1 ≡ not_found
unfolding serve_temporary_route
serve-gone items r e = rw (e, serve_temporary_route) refl

runs_of-none : (t : Text) → runs_of t [] [] ≡ 0
unfolding runs_of
runs_of-none t = refl

runs_of-not_found :
    (t : Text) (r : Request) (rs : List Request) (xs : List Reply)
    → runs_of t (r ∷ rs) (not_found ∷ xs) ≡ runs_of t rs xs
unfolding runs_of
runs_of-not_found t r rs xs = refl

runs_of-refused :
    (t : Text) (r : Request) (rs : List Request) (m : Text) (xs : List Reply)
    → runs_of t (r ∷ rs) (method_not_allowed m ∷ xs) ≡ runs_of t rs xs
unfolding runs_of
runs_of-refused t r rs m xs = refl

runs_of-other :
    (t : Text) (r : Request) (rs : List Request) (x : Reply) (xs : List Reply)
    → same r.token t ≡ false
    → runs_of t (r ∷ rs) (x ∷ xs) ≡ runs_of t rs xs
unfolding runs_of
runs_of-other t r rs (handled route) xs e = rw e refl
runs_of-other t r rs not_found xs e = refl
runs_of-other t r rs (method_not_allowed m) xs e = refl

runs_of-more :
    (t : Text) (r : Request) (rs : List Request) (x : Reply) (xs : List Reply)
    → runs_of t (r ∷ rs) (x ∷ xs) ≤ suc (runs_of t rs xs)
unfolding runs_of
runs_of-more t r rs (handled route) xs = ground arith
runs_of-more t r rs not_found xs = ground arith
runs_of-more t r rs (method_not_allowed m) xs = ground arith

serve-other :
    (t : Text) (items : List (Text × TemporaryRoute)) (r : Request)
    → same r.token t ≡ false
    → lookup t (serve_temporary_route items r).0 ≡ lookup t items
unfolding serve_temporary_route serve_found
serve-other t items r ne = elim (Option-cases (lookup r.token items)) [
  | inl e ↦ rw (e, serve_temporary_route) (ground (arith, lookup-delete r.token t items, ne))
  | inr (route, e) ↦
      rw (e, serve_temporary_route) (ground (arith, lookup-delete r.token t items, ne))
]

runs_of-gone :
    (t : Text) (items : List (Text × TemporaryRoute)) (rs : List Request)
    → lookup t items ≡ none
    → runs_of t rs (serve_all items rs).1 ≡ 0
unfolding serve_all
runs_of-gone t items [] gone = runs_of-none t
runs_of-gone t items (r ∷ rs) gone =
    let (items', x) = serve_temporary_route items r in
    let rest = runs_of-gone t items' rs (serve-keeps t items r gone) in
    elim (Bool-cases (same r.token t)) [
      | inl e ↦
          let here : lookup r.token items ≡ none =
            subst (λ (k : Text). lookup k items ≡ none) (sym ((same_iff r.token t).0 e)) gone in
          ap (λ (y : Reply). runs_of t (r ∷ rs) (y ∷ (serve_all items' rs).1))
            (serve-gone items r here)
          ∙ runs_of-not_found t r rs (serve_all items' rs).1
          ∙ rest
      | inr e ↦ runs_of-other t r rs x (serve_all items' rs).1 e ∙ rest
    ]

-- A request for a one-time route takes the route out, or leaves everything as it is.
serve_found-once :
    (items : List (Text × TemporaryRoute)) (r : Request) (route : TemporaryRoute)
    → route.one_time ≡ true
    → (lookup r.token (serve_found items r route).0 ≡ none)
      ⊎ (serve_found items r route ≡ (items, method_not_allowed route.method))
unfolding serve_found
serve_found-once items r route once =
    elim (Bool-cases
      (not (same route.plugin_id r.plugin_id) || not (ltb_ℤ r.now route.expires_at))) [
        | inl e ↦ inl (rw e (lookup-delete r.token r.token items ∙ rw (same_refl r.token) refl))
        | inr e ↦ elim (Bool-cases (same r.method route.method)) [
          | inl m ↦
              inl (
                rw (e, m, once) (lookup-delete r.token r.token items ∙ rw (same_refl r.token) refl))
          | inr m ↦ inr (rw (e, m) refl)
        ]
      ]

serve-found :
    (items : List (Text × TemporaryRoute)) (r : Request) (route : TemporaryRoute)
    → lookup r.token items ≡ some route
    → serve_temporary_route items r ≡ serve_found items r route
unfolding serve_temporary_route
serve-found items r route e = rw (e, serve_temporary_route) refl

serve_found-runs :
    (items : List (Text × TemporaryRoute)) (r : Request) (route : TemporaryRoute)
    → route.plugin_id ≡ r.plugin_id
    → ltb_ℤ r.now route.expires_at ≡ true
    → r.method ≡ route.method
    → (serve_found items r route).1 ≡ handled route
unfolding serve_found
serve_found-runs items r route plugin live method = ground (
  arith,
  live,
  (same_iff route.plugin_id r.plugin_id).1 plugin,
  (same_iff r.method route.method).1 method,
)

-- A request runs a route's handler exactly when its token leads to the route, the plugin is the
-- route's, the route has not expired and the method is the route's.
pub serve-handled :
    (items : List (Text × TemporaryRoute)) (r : Request) (route : TemporaryRoute)
    → ((serve_temporary_route items r).1 ≡ handled route) ↔ (
        (lookup r.token items ≡ some route)
        × (route.plugin_id ≡ r.plugin_id)
        × (ltb_ℤ r.now route.expires_at ≡ true)
        × (r.method ≡ route.method))
serve-handled items r route = (
  λ h. elim (Option-cases (lookup r.token items)) [
    | inl e ↦ let clash : not_found ≡ handled route = sym (serve-gone items r e) ∙ h in cc
    | inr (found, e) ↦
        let at =
          ap (λ (y : List (Text × TemporaryRoute) × Reply). y.1) (serve-found items r found e) in
        let (is_route, plugin, live, method) =
          serve_found-handled items r found route (sym at ∙ h) in
        (e ∙ ap some is_route, plugin, live, method)
  ],
  λ (e, plugin, live, method).
      ap (λ (y : List (Text × TemporaryRoute) × Reply). y.1) (serve-found items r route e)
      ∙ serve_found-runs items r route plugin live method,
)

-- However many requests are served, the handler of a one-time route is run at most once.
pub runs_of-one_time :
    (rs : List Request) (t : Text) (items : List (Text × TemporaryRoute)) (route : TemporaryRoute)
    → lookup t items ≡ some route
    → route.one_time ≡ true
    → runs_of t rs (serve_all items rs).1 ≤ 1
unfolding serve_all
runs_of-one_time [] t items route at once = rw (runs_of-none t) (ground arith)
runs_of-one_time (r ∷ rs) t items route at once =
    let (items', x) = serve_temporary_route items r in
    let xs = (serve_all items' rs).1 in
    elim (Bool-cases (same r.token t)) [
      | inr e ↦
          let rest = runs_of-one_time rs t items' route (serve-other t items r e ∙ at) once in
          subst (λ (n : ℕ). n ≤ 1) (sym (runs_of-other t r rs x xs e)) rest
      | inl e ↦
          let is_t : r.token ≡ t = (same_iff r.token t).0 e in
          let here : lookup r.token items ≡ some route =
            subst (λ (k : Text). lookup k items ≡ some route) (sym is_t) at in
          let served = serve-found items r route here in
          elim (serve_found-once items r route once) [
            | inl gone ↦
                let gone' : lookup t items' ≡ none =
                  subst (λ (k : Text). lookup k items' ≡ none) is_t
                    (ap (λ (y : List (Text × TemporaryRoute) × Reply). lookup r.token y.0) served
                      ∙ gone) in
                ground (arith, runs_of-more t r rs x xs, runs_of-gone t items' rs gone')
            | inr kept ↦
                let both = served ∙ kept in
                let rest =
                  runs_of-one_time rs t items' route
                    (ap (λ (y : List (Text × TemporaryRoute) × Reply). lookup t y.0) both ∙ at)
                    once in
                subst (λ (n : ℕ). n ≤ 1)
                  (sym (
                    ap (λ (y : List (Text × TemporaryRoute) × Reply). runs_of t (r ∷ rs) (y.1 ∷ xs))
                      both
                    ∙ runs_of-refused t r rs route.method xs))
                  rest
          ]
    ]
