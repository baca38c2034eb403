-- ===== src/Tests/Coding.antt =====
-- A small reversible encoding of texts, states and digests, in the place of JSON.
use Prim.Native.Nat.{Ordering, compare}
use Prim.Native.Char.{Char, char, code, nul, IsLt}
use edge_delta_lab.Prelude.{
  ℕ, zero, suc, ◌≡◌, refl, ap, ◌∙◌, String, List, [], ◌∷◌, Result, ok, err,
}
use edge_delta_lab.Prelude.Dict.{Dict}
use edge_delta_lab.Lab.Agent.{State}

-- The tests of `IsScalar`, whose helpers are private to its module.
abbrev Beyond : Ordering → Ordering → Type 0
Beyond Ordering.lt o = IsLt o
Beyond Ordering.eq _ = ⊥
Beyond Ordering.gt _ = ⊥

abbrev Anywhere : Ordering → Ordering → Ordering → Type 0
Anywhere Ordering.lt _ _ = Unit
Anywhere Ordering.eq o p = Beyond o p
Anywhere Ordering.gt o p = Beyond o p

choose_tail : (o p : Ordering) → (Beyond o p → Char) → Char
choose_tail Ordering.lt Ordering.lt k = k tt
choose_tail Ordering.lt Ordering.eq k = nul
choose_tail Ordering.lt Ordering.gt k = nul
choose_tail Ordering.eq p k = nul
choose_tail Ordering.gt p k = nul

choose : (n o p : Ordering) → (Anywhere n o p → Char) → Char
choose Ordering.lt o p k = k tt
choose Ordering.eq o p k = choose_tail o p k
choose Ordering.gt o p k = choose_tail o p k

choose_tail-eq : (o p : Ordering) (k : Beyond o p → Char) (s : Beyond o p) → choose_tail o p k ≡ k s
unfolding choose_tail
choose_tail-eq Ordering.lt Ordering.lt k s = refl
choose_tail-eq Ordering.lt Ordering.eq k s = absurd s
choose_tail-eq Ordering.lt Ordering.gt k s = absurd s
choose_tail-eq Ordering.eq p k s = absurd s
choose_tail-eq Ordering.gt p k s = absurd s

choose-eq :
    (n o p : Ordering) (k : Anywhere n o p → Char) (s : Anywhere n o p) → choose n o p k ≡ k s
unfolding choose
choose-eq Ordering.lt o p k s = refl
choose-eq Ordering.eq o p k s = choose_tail-eq o p k s
choose-eq Ordering.gt o p k s = choose_tail-eq o p k s

to_char : ℕ → Char
to_char n = choose (compare n 55296) (compare 57343 n) (compare n 1114112) (λ s. char n s)

to_char-code : (c : Char) → to_char (code c) ≡ c
unfolding to_char
to_char-code (char n s) =
    choose-eq (compare n 55296) (compare 57343 n) (compare n 1114112) (λ p. char n p) s

-- Each text ends in a 0.
encode_text : String → List ℕ → List ℕ
encode_text String.[] rest = 0 ∷ rest
encode_text (String.◌∷◌ c s) rest = suc (code c) ∷ encode_text s rest

unfoldable pub encode : List String → List ℕ
unfolding encode_text
encode [] = []
encode (s ∷ ss) = encode_text s (encode ss)

prepend : Char → List String → List String
prepend c [] = []
prepend c (s ∷ ss) = String.◌∷◌ c s ∷ ss

pub decode : List ℕ → List String
decode [] = []
decode (zero ∷ rest) = String.[] ∷ decode rest
decode (suc n ∷ rest) = prepend (to_char n) (decode rest)

decode-encode_text : (s : String) (rest : List ℕ) → decode (encode_text s rest) ≡ s ∷ decode rest
unfolding decode encode_text prepend
decode-encode_text String.[] rest = refl
decode-encode_text (String.◌∷◌ c s) rest = rw (decode-encode_text s rest, to_char-code c) refl

pub decode-encode : (ss : List String) → decode (encode ss) ≡ ss
unfolding encode
decode-encode [] = unfold decode in refl
decode-encode (s ∷ ss) = decode-encode_text s (encode ss) ∙ ap (◌∷◌ s) (decode-encode ss)

pub write_state : State → List ℕ
write_state s =
    s.sequence
    ∷ encode (
        s.manifest_sha256 ∷ s.manifest_url ∷ s.release ∷ s.phase ∷ s.artifact ∷ s.updated
        ∷ s.loaded_manifest_sha256 ∷ [])

of_texts : ℕ → List String → Result State
of_texts n (a ∷ b ∷ c ∷ d ∷ e ∷ f ∷ g ∷ []) = ok (record {
  sequence = n;
  manifest_sha256 = a;
  manifest_url = b;
  release = c;
  phase = d;
  artifact = e;
  updated = f;
  loaded_manifest_sha256 = g;
})
of_texts n _ = err "state"

pub read_state : List ℕ → Result State
read_state [] = err "state"
read_state (n ∷ rest) = of_texts n (decode rest)

pub read-write_state : (s : State) → read_state (write_state s) ≡ ok s
unfolding read_state write_state of_texts
read-write_state s = rw decode-encode refl

texts_of : Dict String → List String
texts_of [] = []
texts_of ((k, v) ∷ m) = k ∷ v ∷ texts_of m

dict_of : List String → Dict String
dict_of (k ∷ v ∷ ss) = (k, v) ∷ dict_of ss
dict_of _ = []

pub write_digests : Dict String → List ℕ
write_digests m = encode (texts_of m)

pub read_digests : List ℕ → Result (Dict String)
read_digests b = ok (dict_of (decode b))

dict-texts : (m : Dict String) → dict_of (texts_of m) ≡ m
unfolding dict_of texts_of
dict-texts [] = refl
dict-texts ((k, v) ∷ m) = ap (◌∷◌ (k, v)) (dict-texts m)

pub read-write_digests : (m : Dict String) → read_digests (write_digests m) ≡ ok m
unfolding read_digests write_digests
read-write_digests m = ap ok (ap dict_of (decode-encode (texts_of m)) ∙ dict-texts m)
