-- ===== src/Routes/Tests.antt =====
-- A one-time route of one plugin.
use polarix.Prelude.{
  ◌≤◌, ◌≡◌, refl, ◌↔◌, true, some, List, [], ◌∷◌, Text, str, same, trim_space, lookup, insert, pos,
  ltb_ℤ,
}
use polarix.Routes.{
  Request, TemporaryRoute, handled, is_plugin_id, register_temporary_route, registered_at,
  serve_all, serve_temporary_route,
}
use polarix.Routes.Serving.{runs_of, runs_of-one_time, serve-handled}

abbrev download : TemporaryRoute
download = record {
  plugin_id = str "p";
  expires_at = pos 100;
  method = str "GET";
  one_time = true;
  content_type = [];
  handler = 1;
}

abbrev table : List (Text × TemporaryRoute)
table = (str "t", download) ∷ []

abbrev request : Request
request = record { method = str "GET"; plugin_id = str "p"; token = str "t"; now = pos 7 }

registered_route :
    register_temporary_route
      (λ c. c)
      []
      (str "p")
      (record { ttl = pos 93; method = str "get"; one_time = true; content_type = [] })
      (some 1)
      (some (str "t"))
      (pos 7)
    ≡ (table, registered_at (str "/_plugin/p/t"))
unfolding register_temporary_route is_plugin_id insert trim_space
registered_route = refl

serve-handled_example : ((serve_temporary_route table request).1 ≡ handled download) ↔ (
    (lookup (str "t") table ≡ some download)
    × (str "p" ≡ str "p")
    × (ltb_ℤ (pos 7) (pos 100) ≡ true)
    × (str "GET" ≡ str "GET"))
serve-handled_example = serve-handled table request download

runs_of-one_time_example :
    runs_of (str "t") (request ∷ request ∷ []) (serve_all table (request ∷ request ∷ [])).1 ≤ 1
unfolding lookup same
runs_of-one_time_example =
    runs_of-one_time (request ∷ request ∷ []) (str "t") table download refl refl
