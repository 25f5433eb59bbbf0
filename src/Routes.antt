-- ===== src/Routes.antt =====
-- lib/context/web.go: the temporary routes that plugins create. The random token, the time and the
-- handler's result are arguments; a handler is named by a number. Times are in nanoseconds.
pub mod Serving
pub mod Tests
use polarix.Prelude.{
  ℕ, ◌+◌, ◌-◌, ◌/◌, ◌^◌, Bool, true, not, ◌&&◌, ◌||◌, Option, none, some, List, [], ◌∷◌, ◌++◌, ltb,
  leb, ◌==◌, if◌then◌else◌, Text, str, same, is_empty, trim_space, lookup, insert, delete, ℤ, pos,
  pos_part, neg_part, sub_ℕ, ltb_ℤ, leb_ℤ,
}

pub record TemporaryRoute : Type 0 where
  pub plugin_id : Text
  pub expires_at : ℤ
  pub method : Text
  pub one_time : Bool
  pub content_type : Text
  pub handler : ℕ

pub record TemporaryRouteOptions : Type 0 where
  pub ttl : ℤ
  pub method : Text
  pub one_time : Bool
  pub content_type : Text

pub data RouteError : Type 0 where
  not_bound : RouteError
  bad_ttl : RouteError
  no_handler : RouteError
  no_token : RouteError

pub data Registration : Type 0 where
  registered_at : Text → Registration
  refused : RouteError → Registration

-- `^[A-Za-z0-9_-]+$`
unfoldable pub is_id_byte : ℕ → Bool
is_id_byte c =
    (leb 65 c && leb c 90)
    || (leb 97 c && leb c 122)
    || (leb 48 c && leb c 57)
    || (c == 95)
    || (c == 45)

abbrev pub all_id_bytes : Text → Bool
all_id_bytes [] = true
all_id_bytes (c ∷ s) = is_id_byte c && all_id_bytes s

unfoldable pub is_plugin_id : Text → Bool
unfolding is_id_byte
is_plugin_id s = not (is_empty s) && all_id_bytes s

-- The sum of two times.
abbrev pub plus_ℤ : ℤ → ℤ → ℤ
plus_ℤ a b = sub_ℕ (pos_part a + pos_part b) (neg_part a + neg_part b)

-- strings.ToUpper at the methods' letters; beyond ASCII it is an argument.
unfoldable pub to_upper : (ℕ → ℕ) → Text → Text
to_upper upper [] = []
to_upper upper (c ∷ s) =
    (if leb 97 c && leb c 122 then c - 32 else if ltb c 128 then c else upper c) ∷ to_upper upper s

-- RegisterTemporaryRoute, given the random token, or none where there is no randomness
unfoldable pub register_temporary_route :
    (ℕ → ℕ)
    → List (Text × TemporaryRoute)
    → Text
    → TemporaryRouteOptions
    → Option ℕ
    → Option Text
    → ℤ
    → List (Text × TemporaryRoute) × Registration
unfolding is_plugin_id to_upper
register_temporary_route upper items plugin o handler token now =
    let method = to_upper upper (trim_space o.method) in
    if not (is_plugin_id plugin)
    then (items, refused not_bound)
    else if leb_ℤ o.ttl (pos 0)
    then (items, refused bad_ttl)
    else elim handler [
      | none ↦ (items, refused no_handler)
      | some h ↦ elim token [
        | none ↦ (items, refused no_token)
        | some t ↦ (
          insert t
              (record {
                plugin_id = plugin;
                expires_at = plus_ℤ now o.ttl;
                method = if is_empty method then str "GET" else method;
                one_time = o.one_time;
                content_type = o.content_type;
                handler = h;
              })
              items,
          registered_at (str "/_plugin" ++ (str "/" ++ (plugin ++ (str "/" ++ t)))),
        )
      ]
    ]

-- The function that RegisterTemporaryRoute returns.
unfoldable pub remove : Text → List (Text × TemporaryRoute) → List (Text × TemporaryRoute)
remove token items = delete token items

pub record Request : Type 0 where
  pub method : Text
  pub plugin_id : Text
  pub token : Text
  pub now : ℤ

pub data Reply : Type 0 where
  not_found : Reply
  method_not_allowed : Text → Reply
  handled : TemporaryRoute → Reply

-- The tests of ServeTemporaryRoute on the route that is found.
unfoldable pub serve_found :
    List (Text × TemporaryRoute) → Request → TemporaryRoute → List (Text × TemporaryRoute) × Reply
serve_found items r route =
    if not (same route.plugin_id r.plugin_id) || not (ltb_ℤ r.now route.expires_at)
    then (delete r.token items, not_found)
    else if not (same r.method route.method)
    then (items, method_not_allowed route.method)
    else if route.one_time
    then (delete r.token items, handled route)
    else (items, handled route)

-- ServeTemporaryRoute up to the call of the handler
unfoldable pub serve_temporary_route :
    List (Text × TemporaryRoute) → Request → List (Text × TemporaryRoute) × Reply
unfolding serve_found
serve_temporary_route items r = elim (lookup r.token items) [
  | none ↦ (delete r.token items, not_found)
  | some route ↦ serve_found items r route
]

-- Requests one after the other.
unfoldable pub serve_all :
    List (Text × TemporaryRoute) → List Request → List (Text × TemporaryRoute) × List Reply
unfolding serve_temporary_route
serve_all items [] = (items, [])
serve_all items (r ∷ rs) =
    let (items', x) = serve_temporary_route items r in
    let (items'', xs) = serve_all items' rs in (items'', x ∷ xs)
