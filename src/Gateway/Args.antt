-- ===== src/Gateway/Args.antt =====
-- The arguments of the command line in web/gateway/server.ts. A text is a list of character codes.
use market_sandbox.Prelude.{
  ℕ, ◌≡◌, refl, sym, ap, ap₂, ◌∙◌, Option, none, some, List, [], ◌∷◌, ◌++◌, map, Bool, true, false,
  ◌&&◌, if◌then◌else◌, ite, ◌==◌, All, ℕ_discrete, ℤ, pos,
}
use market_sandbox.JsMap
use market_sandbox.JsMap.{JsMap}
use market_sandbox.JsMap.Laws.{lookup-insert}

abbrev pub Text : Type 0
Text = List ℕ

same_texts : {c d : ℕ} {s t : Text} → Dec (c ≡ d) → Dec (s ≡ t) → Dec (c ∷ s ≡ d ∷ t)
same_texts (yes p) (yes q) = yes (ap₂ (◌∷◌) p q)
same_texts (yes p) (no n) = no (λ e. n (cc e))
same_texts (no n) q = no (λ e. n (cc e))

unfoldable pub Text_discrete : Discrete Text
unfolding same_texts
Text_discrete [] [] = yes refl
Text_discrete [] (d ∷ t) = no (λ e. cc e)
Text_discrete (c ∷ s) [] = no (λ e. cc e)
Text_discrete (c ∷ s) (d ∷ t) = same_texts (ℕ_discrete c d) (Text_discrete s t)

-- `a.replace(/^--/, "")`
unfoldable pub without_dashes : Text → Text
without_dashes (a ∷ b ∷ rest) = if a == b'-' && b == b'-' then rest else a ∷ b ∷ rest
without_dashes a = a

abbrev pub onto_first : ℕ → List Text → List Text
onto_first c [] = (c ∷ []) ∷ []
onto_first c (t ∷ ts) = (c ∷ t) ∷ ts

-- `split("=")`
unfoldable pub split : Text → List Text
split [] = [] ∷ []
split (c ∷ cs) = let rest = split cs in if c == b'=' then [] ∷ rest else onto_first c rest

abbrev pub text_true : Text
text_true = b't' ∷ b'r' ∷ b'u' ∷ b'e' ∷ []

-- `[k, v ?? "true"]`, of the parts.
abbrev pub entry_of : List Text → Text × Text
entry_of [] = ([], text_true)
entry_of (k ∷ []) = (k, text_true)
entry_of (k ∷ v ∷ more) = (k, v)

abbrev pub entry : Text → Text × Text
entry a = entry_of (split (without_dashes a))

-- The loop of `new Map`.
unfoldable pub set_all : List (Text × Text) → JsMap Text Text → JsMap Text Text
set_all [] m = m
set_all ((k, v) ∷ es) m = set_all es (JsMap.insert Text_discrete k v m)

-- `args`
unfoldable pub args : List Text → JsMap Text Text
unfolding set_all
args argv = set_all (map entry argv) []

-- `args.has(k)`
abbrev pub has : Text → JsMap Text Text → Bool
has k m = elim (JsMap.lookup Text_discrete k m) [ none ↦ false | some v ↦ true ]

abbrev pub key_exchange : Text
key_exchange = b'e' ∷ b'x' ∷ b'c' ∷ b'h' ∷ b'a' ∷ b'n' ∷ b'g' ∷ b'e' ∷ []

abbrev pub default_exchange : Text
default_exchange =
    b'l' ∷ b'o' ∷ b'c' ∷ b'a' ∷ b'l' ∷ b'h' ∷ b'o' ∷ b's' ∷ b't' ∷ b':' ∷ b'5' ∷ b'0' ∷ b'0' ∷ b'5'
    ∷ b'1' ∷ []

-- `EXCHANGE`
abbrev pub exchange : JsMap Text Text → Text
exchange m = elim (JsMap.lookup Text_discrete key_exchange m) [
  | none ↦ default_exchange
  | some v ↦ v
]

abbrev pub key_port : Text
key_port = b'p' ∷ b'o' ∷ b'r' ∷ b't' ∷ []

-- `PORT`; the language's `Number` is an argument.
abbrev pub port : (Text → Option ℤ) → JsMap Text Text → Option ℤ
port number m = elim (JsMap.lookup Text_discrete key_port m) [
  | none ↦ some (pos 8_787)
  | some v ↦ number v
]

-- An option as the user means it.
pub data Given : Type 0 where
  flag : Text → Given
  setting : Text → Text → Given

-- No character is the equality sign.
abbrev pub IsPlain : Text → Type 0
IsPlain = All (λ c. (c == b'=') ≡ false)

abbrev pub IsWritable : Given → Type 0
IsWritable (flag k) = IsPlain k
IsWritable (setting k v) = IsPlain k × IsPlain v

abbrev pub word : Given → Text
word (flag k) = b'-' ∷ b'-' ∷ k
word (setting k v) = b'-' ∷ b'-' ∷ k ++ b'=' ∷ v

-- The value that is given last for a key.
abbrev pub last_given : Text → List Given → Option Text → Option Text
last_given k [] v = v
last_given k (flag j ∷ gs) v = last_given k gs (ite (Text_discrete j k) (some text_true) v)
last_given k (setting j w ∷ gs) v = last_given k gs (ite (Text_discrete j k) (some w) v)

split-plain : (t : Text) → IsPlain t → split t ≡ t ∷ []
unfolding split
split-plain [] h = refl
split-plain (c ∷ cs) h = rw (h.0, split-plain cs h.1) refl

split-setting : (k v : Text) → IsPlain k → IsPlain v → split (k ++ b'=' ∷ v) ≡ k ∷ v ∷ []
unfolding split
split-setting [] v h g = ap (◌∷◌ []) (split-plain v g)
split-setting (c ∷ cs) v h g = rw (h.0, split-setting cs v h.1 g) refl

entry-word :
    (g : Given)
    → IsWritable g
    → (elim g [ flag k ↦ (k, text_true) | setting k v ↦ (k, v) ]) ≡ entry (word g)
unfolding without_dashes
entry-word (flag k) h = ap entry_of (sym (split-plain k h))
entry-word (setting k v) h = ap entry_of (sym (split-setting k v h.0 h.1))

lookup-set_all :
    (k : Text) (gs : List Given) (m : JsMap Text Text)
    → All IsWritable gs
    → JsMap.lookup Text_discrete k (set_all (map entry (map word gs)) m)
      ≡ last_given k gs (JsMap.lookup Text_discrete k m)
unfolding set_all
lookup-set_all k [] m h = refl
lookup-set_all k (flag j ∷ gs) m h =
    ap
      (λ e.
        JsMap.lookup Text_discrete k
          (set_all (map entry (map word gs)) (JsMap.insert Text_discrete e.0 e.1 m)))
      (sym (entry-word (flag j) h.0))
    ∙ lookup-set_all k gs (JsMap.insert Text_discrete j text_true m) h.1
    ∙ ap (last_given k gs) (lookup-insert Text_discrete j k text_true m)
lookup-set_all k (setting j w ∷ gs) m h =
    ap
      (λ e.
        JsMap.lookup Text_discrete k
          (set_all (map entry (map word gs)) (JsMap.insert Text_discrete e.0 e.1 m)))
      (sym (entry-word (setting j w) h.0))
    ∙ lookup-set_all k gs (JsMap.insert Text_discrete j w m) h.1
    ∙ ap (last_given k gs) (lookup-insert Text_discrete j k w m)

-- What the user writes is what the gateway reads: of flags `--key` and settings `--key=value`, in any number
-- and order, with no "=" in a key or a value, the gateway gets for each key the value given last, "true"
-- for a flag, and nothing for a key that was not given.
pub args-last_given :
    (k : Text) (gs : List Given)
    → All IsWritable gs
    → JsMap.lookup Text_discrete k (args (map word gs)) ≡ last_given k gs none
unfolding args JsMap.lookup
args-last_given k gs h = lookup-set_all k gs [] h
