-- ===== src/Gateway/Routes/Guarded.antt =====
-- s3gw/handler.go: what the route tables guarantee of the routes in them.
use s3rp.Common.{
  ◌≡◌, ◌⊎◌, inl, inr, refl, Bool, true, false, not, ◌&&◌, ◌||◌, Option, none, some, List, [], ◌∷◌,
  is_empty, Text, codes, text_eq, arith,
}
use s3rp.Gateway.Routes.{method, reject_acl, refuses, Route, bind_routes}
use s3rp.Gateway.Routes.Tables.{
  get_bucket_routes, head_bucket_routes, put_bucket_routes, delete_bucket_routes,
  post_bucket_routes, get_object_routes, head_object_routes, put_object_routes,
  delete_object_routes, post_object_routes, bucket_routes_of, object_routes_of,
}

abbrev has_params : Option (List Text) → Bool
has_params none = false
has_params (some _) = true

-- A route to a method of the gateway checks the query parameters, unless it is HeadBucket's, and
-- authorizes an action, unless it is DeleteObjects', which authorizes each key.
abbrev pub is_guarded : Route → Bool
is_guarded rt = elim rt.handle [
  | method _ ↦
      (has_params rt.params || text_eq rt.name (codes "HeadBucket"))
      && (not (is_empty rt.action) || text_eq rt.name (codes "DeleteObjects"))
  | reject_acl ↦ true
  | refuses ↦ true
]

abbrev pub all_guarded : List Route → Bool
all_guarded [] = true
all_guarded (rt ∷ rts) = is_guarded rt && all_guarded rts

-- Whether `bindRoutes` does not panic, and the bound routes are guarded.
abbrev pub is_sound : List Route → Bool
is_sound rts = elim (bind_routes rts) [ none ↦ false | some bound ↦ all_guarded bound ]

get_bucket_routes-is_sound : is_sound get_bucket_routes ≡ true
unfolding get_bucket_routes bind_routes text_eq
get_bucket_routes-is_sound = refl

head_bucket_routes-is_sound : is_sound head_bucket_routes ≡ true
unfolding head_bucket_routes bind_routes text_eq
head_bucket_routes-is_sound = refl

put_bucket_routes-is_sound : is_sound put_bucket_routes ≡ true
unfolding put_bucket_routes bind_routes text_eq
put_bucket_routes-is_sound = refl

delete_bucket_routes-is_sound : is_sound delete_bucket_routes ≡ true
unfolding delete_bucket_routes bind_routes text_eq
delete_bucket_routes-is_sound = refl

post_bucket_routes-is_sound : is_sound post_bucket_routes ≡ true
unfolding post_bucket_routes bind_routes text_eq
post_bucket_routes-is_sound = refl

get_object_routes-is_sound : is_sound get_object_routes ≡ true
unfolding get_object_routes bind_routes text_eq
get_object_routes-is_sound = refl

head_object_routes-is_sound : is_sound head_object_routes ≡ true
unfolding head_object_routes bind_routes text_eq
head_object_routes-is_sound = refl

put_object_routes-is_sound : is_sound put_object_routes ≡ true
unfolding put_object_routes bind_routes text_eq
put_object_routes-is_sound = refl

delete_object_routes-is_sound : is_sound delete_object_routes ≡ true
unfolding delete_object_routes bind_routes text_eq
delete_object_routes-is_sound = refl

post_object_routes-is_sound : is_sound post_object_routes ≡ true
unfolding post_object_routes bind_routes text_eq
post_object_routes-is_sound = refl

bucket_routes_of-is_sound :
    (verb : Text) (rts : List Route) → bucket_routes_of verb ≡ some rts → is_sound rts ≡ true
bucket_routes_of-is_sound verb rts e = ground (
  arith, get_bucket_routes-is_sound, head_bucket_routes-is_sound, put_bucket_routes-is_sound,
  delete_bucket_routes-is_sound, post_bucket_routes-is_sound,
)

object_routes_of-is_sound :
    (verb : Text) (rts : List Route) → object_routes_of verb ≡ some rts → is_sound rts ≡ true
object_routes_of-is_sound verb rts e = ground (
  arith, get_object_routes-is_sound, head_object_routes-is_sound, put_object_routes-is_sound,
  delete_object_routes-is_sound, post_object_routes-is_sound,
)

-- `bindRoutes` does not panic on either table, and of the routes that it leaves, those to a method
-- of the gateway check the query parameters, HeadBucket's excepted, and authorize an action before
-- the method runs, DeleteObjects' excepted.
pub routes_of-is_sound :
    (verb : Text) (rts : List Route)
    → (bucket_routes_of verb ≡ some rts) ⊎ (object_routes_of verb ≡ some rts)
    → is_sound rts ≡ true
routes_of-is_sound verb rts (inl e) = bucket_routes_of-is_sound verb rts e
routes_of-is_sound verb rts (inr e) = object_routes_of-is_sound verb rts e
