-- ===== src/Core/Clipboard.antt =====
-- crates/passman-core/src/clipboard.rs, and the clearing of the clipboard in unlocked.rs. The clipboard
-- of the operating system is a state: the text that it holds.
use Prim.Native.Char.{code}
use passman.Prelude.{
  ℕ, ◌%◌, String, List, [], ◌∷◌, Option, none, some, Bool, not, Result, ok, err, length, get_or,
  if◌then◌else◌,
}
use passman.Crypto.Aead.{ct_eq}
use passman.Core.Error.{CoreError, io}

pub record ClipboardCookie : Type 0 where
  pub digest : List ℕ
  pub written_at : ℕ

pub data ClearOutcome : Type 0 where
  cleared still_ours replaced empty unavailable : ClearOutcome

-- What an implementation of the trait `Clipboard` does: the digest that it takes, which of its calls
-- fail, and the time of a write.
pub record Clipboard : Type 0 where
  pub digest_of : List ℕ → List ℕ
  pub write_fails : Bool
  pub read_fails : Bool
  pub set_fails : Bool
  pub time : ℕ

abbrev codes : String → List ℕ
codes String.[] = []
codes (String.◌∷◌ c s) = code c ∷ codes s

abbrev pub facts : List (List ℕ)
facts =
    codes "Honey never spoils."
    ∷ codes "Octopuses have three hearts."
    ∷ codes "A group of flamingos is called a flamboyance."
    ∷ codes "Bananas are botanically berries."
    ∷ codes "Sharks predate trees."
    ∷ codes "Wombat droppings are cube-shaped."
    ∷ codes "The Eiffel Tower grows taller in summer."
    ∷ codes "A bolt of lightning is hotter than the Sun's surface."
    ∷ codes "Sea otters hold hands while they sleep."
    ∷ codes "Honeybees can recognize human faces."
    ∷ codes "There are more stars than grains of sand on Earth."
    ∷ codes "A day on Venus is longer than its year."
    ∷ []

-- From the random byte.
unfoldable pub random_fact : ℕ → List ℕ
random_fact byte = get_or facts (byte % length facts) []

unfoldable pub write :
    Clipboard → List ℕ → Option (List ℕ) → Result CoreError ClipboardCookie × Option (List ℕ)
write c secret text =
    if c.write_fails
    then (err (io "clipboard write"), text)
    else (ok (record { digest = c.digest_of secret; written_at = c.time }), some secret)

unfoldable pub overwrite : Clipboard → ℕ → Bool → Option (List ℕ) → ClearOutcome × Option (List ℕ)
unfolding random_fact
overwrite c byte fact_overwrite text =
    if not fact_overwrite
    then (still_ours, text)
    else if c.set_fails
    then (unavailable, text)
    else (cleared, some (random_fact byte))

unfoldable pub clear_held :
    Clipboard → ℕ → Bool → ClipboardCookie → Option (List ℕ) → ClearOutcome × Option (List ℕ)
unfolding overwrite
clear_held c byte fact_overwrite cookie none = (empty, none)
clear_held c byte fact_overwrite cookie (some text) =
    if not (ct_eq (c.digest_of text) cookie.digest)
    then (replaced, some text)
    else overwrite c byte fact_overwrite (some text)

-- The random byte of the fact comes first.
unfoldable pub clear_clipboard_impl :
    Clipboard → ℕ → Bool → ClipboardCookie → Option (List ℕ) → ClearOutcome × Option (List ℕ)
unfolding clear_held
clear_clipboard_impl c byte fact_overwrite cookie text =
    if c.read_fails then (unavailable, text) else clear_held c byte fact_overwrite cookie text
