-- ===== src/Tests/Router.antt =====
-- A router that keeps to axum's documented behaviour, and requests that it sends on.
use xray_bridge.Prelude.{
  ◌||◌, Option-cases, ◌≡◌, ◌≢◌, inl, inr, refl, Bool, true, false, ◌&&◌, Option, some, none, ok,
  err, List, [], ◌∷◌, map, In, arith, if◌then◌else◌, ap, subst,
}
use xray_bridge.Text.{Str, utf8, str_eq}
use xray_bridge.Text.Laws.{str_eq_iff}
use xray_bridge.Text.Split.{split}
use xray_bridge.Text.Split.Laws.{IsPlain}
use xray_bridge.Routes.Router.{Axum, dispatch, Request, delete, endpoint, method_not_allowed, get}
use xray_bridge.Routes.Path.{segment, segments, fits, Fits, is_static}
use xray_bridge.Routes.Router.Conflicts.{dispatch_unique}
use xray_bridge.Routes.Router.Static.{segment-static, static-same, join-segments}
use xray_bridge.Routes.Router.Stats.{stat_path, get_stat-dispatch}
use xray_bridge.Routes.Serve.{get_stat, delete_user}
use xray_bridge.Routes.Body.{reset_query, and_then_extract, remove_user_query}
use xray_bridge.Routes.Router.Users.{delete_user-dispatch, is_taken, user_path}
use xray_bridge.Tests.Sample.{caller}

is_some : Option Str → Bool
is_some none = false
is_some (some x) = true

-- The first or the last route that the path fits.
pub first_fit : Bool → List Str → List Str → Option Str
first_fit last [] path = none
first_fit last (r ∷ rs) path =
    let rest = first_fit last rs path in
    if last && is_some rest then rest else if fits (segments r) path then some r else rest

unfoldable pub member : Str → List Str → Bool
member r [] = false
member r (s ∷ rs) = str_eq r s || member r rs

member-In : (r : Str) (rs : List Str) → member r rs ≡ true → In r rs
unfolding member
member-In r [] h = cc
member-In r (s ∷ rs) h = ground (arith, member-In r rs, str_eq_iff r s)

In-member : (r : Str) (rs : List Str) → In r rs → member r rs ≡ true
unfolding member
In-member r [] i = absurd i
In-member r (s ∷ rs) i = ground (arith, i, In-member r rs, str_eq_iff r s)

first_fit-fits :
    (last : Bool) (rs path : List Str) (r : Str)
    → first_fit last rs path ≡ some r
    → In r rs × (fits (segments r) path ≡ true)
unfolding first_fit is_some
first_fit-fits last [] path r h = cc
first_fit-fits last (s ∷ rs) path r h = ground (arith, h, first_fit-fits last rs path r)

first_fit_complete :
    (last : Bool) (rs path : List Str) (r : Str)
    → In r rs
    → fits (segments r) path ≡ true
    → first_fit last rs path ≢ none
unfolding first_fit is_some
first_fit_complete last [] path r i h k = absurd i
first_fit_complete last (s ∷ rs) path r i h k = elim (Option-cases (first_fit last rs path)) [
  | inl missing ↦
      ground (
        arith,
        i,
        h,
        k,
        missing,
        ap (λ x. fits (segments x) path),
        first_fit_complete last rs path r,
      )
  | inr (x, found) ↦ ground (arith, k, found)
]

static-fits :
    (parts : List Str)
    → is_static (map segment parts) ≡ true
    → fits (map segment parts) parts ≡ true
unfolding fits
static-fits [] h = refl
static-fits (part ∷ parts) h =
    let (same, more) = segment-static part (map segment parts) h in
    rw same (ground (arith, static-fits parts more, str_eq_iff part part))

-- The path itself if it is a static route, else the first or the last route that it fits.
unfoldable pub sample_find : Bool → List Str → Str → Option Str
sample_find last rs path =
    if is_static (segments path) && member path rs
    then some path
    else first_fit last rs (split (utf8 "/") path)

pub sample_find-Fits :
    (last : Bool) (rs : List Str) (path : Str) {r : Str}
    → sample_find last rs path ≡ some r
    → In r rs × Fits r path
unfolding sample_find segments
sample_find-Fits last rs path {r} h = ground (
  arith,
  h,
  member-In path rs,
  static-fits (split (utf8 "/") path),
  first_fit-fits last rs (split (utf8 "/") path) r,
)

pub sample_find_complete :
    (last : Bool) (rs : List Str) (path r : Str)
    → In r rs
    → Fits r path
    → sample_find last rs path ≢ none
unfolding sample_find
sample_find_complete last rs path r i h =
    ground (arith, first_fit_complete last rs (split (utf8 "/") path) r i h)

pub sample_find-static :
    (last : Bool) (rs : List Str) (path r : Str)
    → In r rs
    → Fits r path
    → is_static (segments r) ≡ true
    → sample_find last rs path ≡ some r
unfolding sample_find segments
sample_find-static last rs path r i h static =
    let same : r ≡ path =
      join-segments r path (static-same (split (utf8 "/") r) (split (utf8 "/") path) static h) in
    ground (
      arith,
      same,
      subst (λ x. is_static (segments x) ≡ true) same static,
      In-member path rs,
      subst (λ x. In x rs) same i,
    )

abbrev pub axum : Axum
axum = record {
  find = sample_find false;
  find-fits = sample_find-Fits false;
  find-complete = sample_find_complete false;
  find-static = sample_find-static false;
  path_param = ok;
}

-- The same, but it looks at the routes from the last one on.
abbrev other_axum : Axum
other_axum = record {
  find = sample_find true;
  find-fits = sample_find-Fits true;
  find-complete = sample_find_complete true;
  find-static = sample_find-static true;
  path_param = ok;
}

abbrev pub removal : Request
removal = record {
  method = delete;
  path = user_path (utf8 "amy@x");
  headers = caller;
  reset_fields = ok none;
  stats_fields = ok (record { pattern = none; reset = none });
  remove_user_fields = ok (record { tag = some (utf8 "in"); ignore_missing = none });
  add_user_fields = err 415;
  config_field = err 415;
  test_route_fields = err 415;
  target_field = err 415;
}

dispatch_unique_example : dispatch axum removal ≡ dispatch other_axum removal
dispatch_unique_example = dispatch_unique axum other_axum removal (λ s. refl)

amy-some : utf8 "amy@x" ≢ []
unfolding utf8
amy-some h = cc

amy-IsPlain-slash : IsPlain b'/' (utf8 "amy@x")
unfolding utf8
amy-IsPlain-slash = ground arith

delete_user-dispatch_example : dispatch axum removal ≡ (
    if is_taken (utf8 "amy@x")
    then method_not_allowed
    else endpoint (
        delete_user
          (axum.path_param (utf8 "amy@x"))
          (and_then_extract removal.remove_user_fields remove_user_query)))
delete_user-dispatch_example =
    delete_user-dispatch (utf8 "amy@x") amy-some amy-IsPlain-slash axum removal refl refl

-- A counter with a slash in its name.
abbrev counter : Str
counter = utf8 "user>>>amy/x>>>traffic>>>uplink"

abbrev reading : Request
reading = record removal { method = get; path = stat_path counter }

counter-some : counter ≢ []
unfolding utf8
counter-some h = cc

get_stat-dispatch_example :
    dispatch axum reading
    ≡ endpoint
        (get_stat (axum.path_param counter) (and_then_extract reading.reset_fields reset_query))
get_stat-dispatch_example = get_stat-dispatch counter axum reading counter-some refl refl
