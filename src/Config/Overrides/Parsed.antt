-- ===== src/Config/Overrides/Parsed.antt =====
-- An override is read back from its text.
use Prim.Native.Char.{Char, code}
use ramulator.Prelude.{
  ℕ, String, ◌≡◌, refl, ap, ◌∙◌, true, false, Option, some, List, [], ◌∷◌, ok, All, ◌==◌,
}
use ramulator.PyValue.{Value}
use ramulator.Config.Overrides.{
  split_once, split, push_char, nonempty, first_key, loaded, parse_parts, parse_override,
}

-- One text behind another.
abbrev pub joined : String → String → String
joined String.[] t = t
joined (String.◌∷◌ c s) t = String.◌∷◌ c (joined s t)

-- A text without a character.
abbrev pub Lacks : ℕ → String → Type 0
Lacks c String.[] = Unit {0}
Lacks c (String.◌∷◌ d s) = ((code d == c) ≡ false) × Lacks c s

abbrev IsFilled : String → Type 0
IsFilled String.[] = ⊥
IsFilled (String.◌∷◌ d s) = Unit {0}

-- A key that an override can name.
abbrev pub IsKey : String → Type 0
IsKey s = IsFilled s × Lacks b'.' s × Lacks b'=' s

-- The keys with dots between them.
abbrev pub dotted : String → List String → String
dotted k [] = k
dotted k (j ∷ ks) = joined k (joined "." (dotted j ks))

split_once-append :
    (c : ℕ) (a : String) (d : Char) (t : String)
    → Lacks c a
    → (code d == c) ≡ true
    → split_once c (joined a (String.◌∷◌ d t)) ≡ some (a, t)
unfolding split_once
split_once-append c String.[] d t h e = rw e refl
split_once-append c (String.◌∷◌ x a) d t h e = rw (h.0, split_once-append c a d t h.1 e) refl

split_whole : (c : ℕ) (s : String) → Lacks c s → split c s ≡ s ∷ []
unfolding split push_char
split_whole c String.[] h = refl
split_whole c (String.◌∷◌ d s) h = rw (h.0, split_whole c s h.1) refl

split-append :
    (c : ℕ) (a : String) (d : Char) (t : String)
    → Lacks c a
    → (code d == c) ≡ true
    → split c (joined a (String.◌∷◌ d t)) ≡ a ∷ split c t
unfolding split push_char
split-append c String.[] d t h e = rw e refl
split-append c (String.◌∷◌ x a) d t h e = rw (h.0, split-append c a d t h.1 e) refl

Lacks-append : (c : ℕ) (a b : String) → Lacks c a → Lacks c b → Lacks c (joined a b)
Lacks-append c String.[] b h k = k
Lacks-append c (String.◌∷◌ x a) b h k = (h.0, Lacks-append c a b h.1 k)

split-dotted :
    (k : String) (ks : List String) → IsKey k → All IsKey ks → split b'.' (dotted k ks) ≡ k ∷ ks
split-dotted k [] h g = split_whole b'.' k h.1
split-dotted k (j ∷ ks) h g =
    split-append b'.' k "." (dotted j ks) h.1 refl
    ∙ ap (λ (l : List String). k ∷ l) (split-dotted j ks g.0 g.1)

Lacks-dotted : (k : String) (ks : List String) → IsKey k → All IsKey ks → Lacks b'=' (dotted k ks)
Lacks-dotted k [] h g = h.2
Lacks-dotted k (j ∷ ks) h g =
    Lacks-append b'=' k (joined "." (dotted j ks)) h.2 (refl, Lacks-dotted j ks g.0 g.1)

nonempty_keys : (ks : List String) → All IsKey ks → nonempty ks ≡ ks
unfolding nonempty
nonempty_keys [] h = refl
nonempty_keys (String.[] ∷ ks) h = absurd (h.0.0)
nonempty_keys (String.◌∷◌ c s ∷ ks) h = ap (λ l. String.◌∷◌ c s ∷ l) (nonempty_keys ks h.1)

parts :
    (loads : String → Option Value) (k : String) (ks : List String) (text : String)
    → IsKey k
    → All IsKey ks
    → parse_parts loads (some (dotted k ks, text)) ≡ ok (k, ks, loaded (loads text) text)
unfolding parse_parts first_key
parts loads k ks text h g = rw (split-dotted k ks h g, nonempty_keys (k ∷ ks) (h, g)) refl

-- The text of keys with dots between them, "=" and a value is read back as these keys and the value that
-- the text behind "=" stands for: its JSON value, or the text itself where it is no JSON. A key is not
-- empty and has no "." and no "=" in it; the text of the value may have both.
pub parse_override-dotted :
    (loads : String → Option Value) (k : String) (ks : List String) (text : String)
    → IsKey k
    → All IsKey ks
    → parse_override loads (joined (dotted k ks) (joined "=" text))
      ≡ ok (k, ks, loaded (loads text) text)
unfolding parse_override
parse_override-dotted loads k ks text h g =
    rw (split_once-append b'=' (dotted k ks) "=" text (Lacks-dotted k ks h g) refl)
      (parts loads k ks text h g)
