-- ===== src/Sessions/Device.antt =====
-- What the session store makes of a browser's user agent: `#createSession` of
-- apps/server/src/session-store.mjs.
use vidvnc.Base.{
  ℕ, ◌+◌, Bool, true, false, ◌&&◌, ◌||◌, [], ◌∷◌, Text, codes, leb, ◌==◌, if◌then◌else◌,
}

abbrev lower : ℕ → ℕ
lower c = if leb b'A' c && leb c b'Z' then c + 32 else c

-- Two units that a pattern with the flag `i` takes for one; the patterns are ASCII letters.
abbrev pub same_letter : ℕ → ℕ → Bool
same_letter a b = lower a == lower b

unfoldable pub starts_with : Text → Text → Bool
starts_with [] s = true
starts_with (p ∷ ps) [] = false
starts_with (p ∷ ps) (c ∷ s) = same_letter p c && starts_with ps s

-- `/pattern/i.test(s)`
unfoldable pub mentions : Text → Text → Bool
unfolding starts_with
mentions p [] = starts_with p []
mentions p (c ∷ s) = starts_with p (c ∷ s) || mentions p s

unfoldable pub device_of : Text → Text
unfolding mentions
device_of agent =
    if mentions (codes "iPhone") agent
    then codes "iPhone"
    else if mentions (codes "iPad") agent
    then codes "iPad"
    else if mentions (codes "Macintosh") agent
    then codes "Mac browser"
    else if mentions (codes "Windows") agent
    then codes "Windows browser"
    else if mentions (codes "Android") agent
    then codes "Android device"
    else codes "Browser client"
