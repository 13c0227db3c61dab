-- ===== src/Streams/Plans.antt =====
-- apps/server/src/stream-registry.mjs and rate-control.mjs: the plan of a stream, its checks, and
-- the key by which plans share a source.
use vidvnc.Base.{
  join, ℕ, zero, suc, ◌+◌, ◌*◌, ◌/◌, ◌%◌, Bool, true, ◌&&◌, Option, none, some, List, [], ◌∷◌, ◌++◌,
  Text, codes, same, leb, ltb, any, if◌then◌else◌, Result, ok, err, is_some,
}

pub data Kind : Type 0 where
  audio video : Kind

-- A number of a profile or display; `none` is any value that is not a natural number.
abbrev pub Number : Type 0
Number = Option ℕ

-- A profile. `bitrate_mode` and `quality` are `none` where the field is undefined.
pub record Profile : Type 0 where
  pub name : Text
  pub width : Number
  pub height : Number
  pub fps : Number
  pub bitrate_kbps : Number
  pub stretch : Bool
  pub bitrate_mode : Option Text
  pub quality : Option Text

-- An integer: not below zero, or the negative of a positive one.
pub data Coordinate : Type 0 where
  from_zero below_zero : ℕ → Coordinate

-- `x` and `y` place a display among others; `none` is undefined.
pub record Display : Type 0 where
  pub id : Option Text
  pub x : Option Coordinate
  pub y : Option Coordinate
  pub width : Number
  pub height : Number
  pub rotation : Number

pub record Plan : Type 0 where
  pub kind : Kind
  pub format : Option Text
  pub profile : Option Profile
  pub display : Display
  pub revision : Number
  pub codec : Option Text

pub data Error : Type 0 where
  invalid_limit invalid_owner invalid_plan audio_active capacity bitrate_budget pixel_budget : Error

abbrev pub max_safe_integer : ℕ
max_safe_integer = 9007199254740991

abbrev pub bitrate_modes : List Text
bitrate_modes = codes "cbr" ∷ codes "vbr" ∷ []

abbrev pub quality_levels : List Text
quality_levels = codes "efficient" ∷ codes "balanced" ∷ codes "high" ∷ []

abbrev pub audio_formats : List Text
audio_formats = codes "mono-32k" ∷ codes "stereo-96k" ∷ []

-- `list.includes(value)`
abbrev pub includes : List Text → Text → Bool
includes l v = any (same v) l

-- `profile?.fps === 15 ? 'mono-32k' : 'stereo-96k'`
unfoldable pub audio_format : Option Profile → Text
audio_format none = codes "stereo-96k"
audio_format (some p) = elim p.fps [
  | none ↦ codes "stereo-96k"
  | some n ↦ if leb 15 n && leb n 15 then codes "mono-32k" else codes "stereo-96k"
]

-- `Number.isSafeInteger(v) && v >= 1`, with the number
abbrev pub positive : Number → Option ℕ
positive none = none
positive (some n) = if leb 1 n && leb n max_safe_integer then some n else none

abbrev pub one_of : List Text → Option Text → Bool
one_of l none = true
one_of l (some v) = includes l v

abbrev pub product : Option ℕ → Option ℕ → Option ℕ → Option ℕ
product (some a) (some b) (some c) = some (a * b * c)
product _ _ _ = none

-- The checks of a video profile in `subscribe`: the pixels per second that it asks for.
unfoldable pub profile_pixels : Profile → Result Error ℕ
profile_pixels p =
    if is_some (positive p.bitrate_kbps)
      && one_of bitrate_modes p.bitrate_mode
      && one_of quality_levels p.quality
    then elim (product (positive p.width) (positive p.height) (positive p.fps)) [
      | none ↦ err invalid_plan
      | some n ↦ if leb n max_safe_integer then ok n else err invalid_plan
    ]
    else err invalid_plan

-- The pixels per second of a plan, or the error of an invalid one.
unfoldable pub plan_pixels : Plan → Result Error ℕ
unfolding profile_pixels
plan_pixels plan = elim plan.kind [
  | audio ↦ elim plan.format [
    | none ↦ err invalid_plan
    | some f ↦ if includes audio_formats f then ok 0 else err invalid_plan
  ]
  | video ↦ elim plan.profile [ none ↦ err invalid_plan | some p ↦ profile_pixels p ]
]

-- `plan.profile.bitrateKbps`, which `plan_pixels` has found to be a number.
abbrev pub bitrate_of : Plan → ℕ
bitrate_of plan = elim plan.profile [
  | none ↦ 0
  | some p ↦ elim p.bitrate_kbps [ none ↦ 0 | some n ↦ n ]
]

-- The decimal digits of a number below 10 ^ fuel, before `rest`.
digits_from : ℕ → ℕ → Text → Text
digits_from zero n rest = rest
digits_from (suc f) n rest =
    let digit = (48 + n % 10) ∷ rest in
    let more = digits_from f (n / 10) digit in if ltb n 10 then digit else more

-- `String(n)` of a natural number: `n + 1` rounds are enough.
unfoldable pub decimal : ℕ → Text
unfolding digits_from
decimal n = digits_from (n + 1) n []

-- A value inside a template or `join`; `undefined` prints as nothing in `join`.
abbrev pub show : Number → Text
show none = []
show (some n) = decimal n

-- The same, of a coordinate
abbrev pub show_coordinate : Option Coordinate → Text
show_coordinate none = []
show_coordinate (some (from_zero n)) = decimal n
show_coordinate (some (below_zero n)) = codes "-" ++ decimal n

abbrev pub or_else : Option Text → Text → Text
or_else none d = d
or_else (some v) d = v

-- The rate-control part of the key: quality shapes the bytes under VBR only.
unfoldable pub rate_key : Profile → Text
rate_key p =
    let mode = or_else p.bitrate_mode (codes "cbr") in
    if same mode (codes "vbr") then codes "vbr:" ++ or_else p.quality (codes "balanced") else mode

-- `display.x,display.y,…`
abbrev pub display_key : Display → Text
display_key d = join (codes ",") (
    show_coordinate d.x ∷ show_coordinate d.y ∷ show d.width ∷ show d.height ∷ show d.rotation ∷ [])

abbrev pub size_key : Profile → Text
size_key p =
    show p.width
    ++ (codes "x"
        ++ (show p.height
            ++ (codes "@" ++ (show p.fps ++ (if p.stretch then codes ":stretch" else [])))))

unfoldable pub video_key : Profile → Plan → Text
unfolding rate_key decimal
video_key p plan = join (codes "|") (
    codes "video"
    ∷ show plan.revision
    ∷ or_else plan.display.id []
    ∷ display_key plan.display
    ∷ size_key p
    ∷ show p.bitrate_kbps
    ∷ rate_key p
    ∷ or_else plan.codec (codes "h264")
    ∷ [])

-- `sourceKey(plan)` of a plan that `plan_pixels` accepts.
unfoldable pub source_key : Plan → Text
unfolding video_key
source_key plan = elim plan.kind [
  | audio ↦ codes "audio|" ++ or_else plan.format []
  | video ↦ elim plan.profile [ none ↦ [] | some p ↦ video_key p plan ]
]
