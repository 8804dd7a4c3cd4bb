-- ===== src/Sio/Fan/Requested.antt =====
-- What a text written to /proc/it86/fan asks for, as the list of its words.
use ugreen_frontpanel.Base.{
  ℕ, ◌&&◌, List, [], ◌∷◌, Option, none, some, ltb, if◌then◌else◌, drop, codes, strncasecmp_eq,
}
use ugreen_frontpanel.Sio.Fan.{skip_blanks, is_empty_string}

pub data Fans : Type 0 where
  system_fans processor_fans : Fans

-- The duty that a word asks for: its own, or the number behind it.
pub data Duty : Type 0 where
  own : ℕ → Duty
  behind : Duty

pub record Word : Type 0 where
  pub size : ℕ
  pub text : List ℕ
  pub fans : Fans
  pub duty : Duty

-- As many characters as `size` count; three of `on` and four of `off` take the end of the text in.
abbrev pub words : List Word
words =
    record { size = 3; text = codes "on"; fans = system_fans; duty = own 127 }
    ∷ record { size = 4; text = codes "off"; fans = system_fans; duty = own 0 }
    ∷ record { size = 4; text = codes "set "; fans = system_fans; duty = behind }
    ∷ record { size = 3; text = codes "con"; fans = processor_fans; duty = own 127 }
    ∷ record { size = 4; text = codes "coff"; fans = processor_fans; duty = own 0 }
    ∷ record { size = 4; text = codes "cpu "; fans = processor_fans; duty = behind }
    ∷ []

-- A number from 1 to 255, of which 198 and more are 198.
abbrev pub number_duty : Option ℕ → Option ℕ
number_duty none = none
number_duty (some v) = if ltb 0 v && ltb v 256 then some (if ltb v 198 then v else 198) else none

abbrev pub duty_of : (List ℕ → Option ℕ) → List ℕ → Duty → Option ℕ
duty_of kstrtoul buf (own duty) = some duty
duty_of kstrtoul buf behind =
    let p = skip_blanks (drop 4 buf) in if is_empty_string p then none else number_duty (kstrtoul p)

abbrev pub for_fans : Fans → Option ℕ → Option (Fans × ℕ)
for_fans fans none = none
for_fans fans (some duty) = some (fans, duty)

-- The first word that the text begins with, in any case, and its duty.
abbrev pub find_word : (List ℕ → Option ℕ) → List ℕ → List Word → Option (Fans × ℕ)
find_word kstrtoul buf [] = none
find_word kstrtoul buf (word ∷ rest) =
    if strncasecmp_eq word.size buf word.text
    then for_fans word.fans (duty_of kstrtoul buf word.duty)
    else find_word kstrtoul buf rest

abbrev pub requested : (List ℕ → Option ℕ) → List ℕ → Option (Fans × ℕ)
requested kstrtoul buf = find_word kstrtoul buf words
