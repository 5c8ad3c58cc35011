-- ===== src/Util/Tests.antt =====
-- The pages and the routes on small inputs, and the theorems at such inputs.
use pullcord.Base.{◌≡◌, ◌↔◌, refl, none, [], ◌∷◌, String, pos, Map, lookup}
use pullcord.Config.Resource.{Unmarshaled, filter}
use pullcord.Util.StandardResponse
use pullcord.Util.Router.{
  ExactPathRouter, unmarshal_router, select_pipeline, IsServable, filter_at,
  select_pipeline-unmarshal,
}

-- The page of a status that the program has a text for: the format is not one of Go's.
page_of_not_found : StandardResponse.filter_request StandardResponse.not_found ≡ (
  pos 404,
  "<!DOCTYPE html>\n<html>\n <head>\n  <title>\n   %!$(string=Not Found)s\n  </title>\n </head>\n <body>\n  <h1>\n   %!$(string=The requested page was not found.)s\n  </h1>\n  <p>\n   %!$(string=  )s\n   %!$(MISSING)s\n  </p>\n </body>\n</html>",
)
unfolding StandardResponse.filter_request StandardResponse.response_title
    StandardResponse.response_text StandardResponse.response_contact
    StandardResponse.response_string
page_of_not_found = refl

abbrev routes : Map Unmarshaled
routes = ("/", filter 3) ∷ ("/login", filter 4) ∷ []

abbrev router : ExactPathRouter
router = record { routes = none }

select_pipeline-unmarshal_example :
    ((unmarshal_router routes router).1 ≡ none ↔ IsServable routes)
    × (IsServable routes
        → (path : String)
        → select_pipeline (unmarshal_router routes router).0 path ≡ filter_at routes path none)
unfolding lookup
select_pipeline-unmarshal_example = select_pipeline-unmarshal routes router (refl, (refl, tt))
