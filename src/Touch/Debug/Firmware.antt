-- ===== src/Touch/Debug/Firmware.antt =====
-- axs_fwupgrade_store and axs_downloadapp_store of packages/axs-touch/src/axs_debug.c, which take the
-- name of a firmware file, hand it on, and so start a load of one fixed file each.
use ugreen_frontpanel.Base.{
  ℕ, ◌+◌, ◌-◌, ◌≤◌, ◌≡◌, ◌⊎◌, refl, ap, ◌∙◌, true, false, ◌||◌, List, [], ◌∷◌, ◌++◌, leb,
  if◌then◌else◌, length, length-append, take, set, replicate, pad, Option, none, some, ℤ, pos,
  arith,
}
use mathlib.Core.List.{append_assoc}
use ugreen_frontpanel.Touch.Bus.{TouchHw, invalid}
use ugreen_frontpanel.Touch.Power.{Driver}
use ugreen_frontpanel.Touch.Registers.Form.{set_after}
use ugreen_frontpanel.Touch.Upgrade.{Loading, axs_debug_fwupg, axs_debug_download_app}
use ugreen_frontpanel.Touch.Debug.Lists.{take-short}
use ugreen_frontpanel.Touch.Debug.Text.{c_string}

-- `fwname`, for the `count` bytes of `text` and the NUL after them.
unfoldable pub fwname : List ℕ → Option (List ℕ)
fwname text = elim (c_string (text ++ (0 ∷ []))) [
  | none ↦ none
  | some str ↦ c_string (set (pad 128 (take 127 str)) (length text - 1) 0)
]

-- What both functions do but for the call with the name; `none` is a read outside a string, or through
-- NULL in the call.
abbrev pub store_name : {S : Type 0} → (List ℕ → S → Option S) → List ℕ → S → Option (ℤ × S)
store_name load text s =
    if leb (length text) 1 || leb (128 - 32) (length text)
    then some (invalid, s)
    else elim (fwname text) [
      | none ↦ none
      | some name ↦ elim (load name s) [ none ↦ none | some s' ↦ some (pos (length text), s') ]
    ]

module _ (hw : TouchHw) (l : Loading) where
  open hw use {World}

  -- Neither function that is called looks at the name: each asks for a file of its own.
  unfoldable pub axs_fwupgrade_store : List ℕ → Driver × World → Option (ℤ × (Driver × World))
  axs_fwupgrade_store = store_name (λ fw_name s. axs_debug_fwupg hw l s)

  unfoldable pub axs_downloadapp_store : List ℕ → Driver × World → Option (ℤ × (Driver × World))
  axs_downloadapp_store = store_name (λ fw_name s. axs_debug_download_app hw l s)

abbrev pub NoNul : List ℕ → Type 0
NoNul [] = Unit {0}
NoNul (c ∷ cs) = (1 ≤ c) × NoNul cs

c_string-cons :
    (c : ℕ) (buf str : List ℕ)
    → 1 ≤ c
    → c_string buf ≡ some str
    → c_string (c ∷ buf) ≡ some (c ∷ str)
unfolding c_string
c_string-cons c buf str h e = ground arith

c_string-NoNul : (str rest : List ℕ) → NoNul str → c_string (str ++ (0 ∷ rest)) ≡ some str
unfolding c_string
c_string-NoNul [] rest h = refl
c_string-NoNul (c ∷ str) rest h =
    c_string-cons c (str ++ (0 ∷ rest)) str h.0 (c_string-NoNul str rest h.1)

NoNul-append : (a b : List ℕ) → NoNul a → NoNul b → NoNul (a ++ b)
NoNul-append [] b h k = k
NoNul-append (c ∷ a) b h k = (h.0, NoNul-append a b h.1 k)

-- The name without the line's end that `echo` adds.
fwname-line :
    (name : List ℕ) → NoNul name → length name ≤ 94 → fwname (name ++ (10 ∷ [])) ≡ some name
unfolding fwname
fwname-line name no_nul short =
    let line = name ++ (10 ∷ []) in
    let long = length-append name (10 ∷ []) in
    let cut = take-short 127 line (omega (arith, long)) in
    let whole : c_string (line ++ (0 ∷ [])) ≡ some line =
      c_string-NoNul line [] (NoNul-append name (10 ∷ []) no_nul (omega arith, tt)) in
    let zeros : List ℕ = replicate (128 - length (take 127 line)) 0 in
    let at : length line - 1 ≡ length name + 0 = omega (arith, long) in
    let ended : set (take 127 line ++ zeros) (length line - 1) 0 ≡ name ++ (0 ∷ zeros) =
      ap (λ l. set (l ++ zeros) (length line - 1) 0) cut
      ∙ ap (λ l. set l (length line - 1) 0) (append_assoc name (10 ∷ []) zeros)
      ∙ ap (λ i. set (name ++ (10 ∷ zeros)) i 0) at
      ∙ set_after name (10 ∷ zeros) 0 0 in
    rw (whole, fwname) (ap c_string ended ∙ c_string-NoNul name zeros no_nul)

store_name-line :
    {S : Type 0} (load : List ℕ → S → Option S) (name : List ℕ) (s t : S)
    → NoNul name
    → 1 ≤ length name
    → length name ≤ 94
    → load name s ≡ some t
    → store_name load (name ++ (10 ∷ [])) s ≡ some (pos (length name + 1), t)
store_name-line load name s t no_nul some_char short loaded =
    let line = name ++ (10 ∷ []) in
    let long = length-append name (10 ∷ []) in
    let named = fwname-line name no_nul short in
    let inside : (leb (length line) 1 || leb (128 - 32) (length line)) ≡ false = ground arith in
    let counted : length line ≡ length name + 1 = long in rw (inside, named, loaded, counted) refl

store_name-bad :
    {S : Type 0} (load : List ℕ → S → Option S) (name : List ℕ) (s : S)
    → (length name ≡ 0) ⊎ (95 ≤ length name)
    → store_name load (name ++ (10 ∷ [])) s ≡ some (invalid, s)
store_name-bad load name s bad =
    let line = name ++ (10 ∷ []) in
    let long = length-append name (10 ∷ []) in
    let refused : (leb (length line) 1 || leb (128 - 32) (length line)) ≡ true = ground arith in
    rw refused refl

module _ (hw : TouchHw) (l : Loading) where
  open hw use {World}

  -- A line of 1 to 94 characters without a NUL has a firmware loaded, by the upgrade or the download,
  -- and all of the line is taken, where the load returns. The buffer for the name is not overrun, and
  -- what the line says makes no difference: the file is the one that the called function names.
  pub firmware_stores-line :
      (name : List ℕ) (s t u : Driver × World)
      → NoNul name
      → 1 ≤ length name
      → length name ≤ 94
      → axs_debug_fwupg hw l s ≡ some t
      → axs_debug_download_app hw l s ≡ some u
      → (axs_fwupgrade_store hw l (name ++ (10 ∷ [])) s ≡ some (pos (length name + 1), t))
        × (axs_downloadapp_store hw l (name ++ (10 ∷ [])) s ≡ some (pos (length name + 1), u))
  unfolding axs_fwupgrade_store axs_downloadapp_store
  firmware_stores-line name s t u no_nul some_char short upgraded downloaded = (
    store_name-line (λ n v. axs_debug_fwupg hw l v) name s t no_nul some_char short upgraded,
    store_name-line (λ n v. axs_debug_download_app hw l v) name s u no_nul some_char short
        downloaded,
  )
