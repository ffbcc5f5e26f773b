-- ===== src/Server/Values.antt =====
-- Values that the codec can encode, and dicts of such values.
use auto_test_poc.Base.{
  ℕ, ◌≡◌, refl, ◌∙◌, Bool, true, false, List, [], ◌∷◌, ◌++◌, Option, none, some, get_or, or_else,
  All, arith, Bool-cases, ◌==◌, ◌&&◌, not, All-append, inl, inr,
}
use auto_test_poc.Py.Text.{Text, Lacks, text_eq, text_eq_iff}
use auto_test_poc.Py.Decimal.{print_ℕ, print_ℕ-Lacks}
use auto_test_poc.Py.Dict.{Dict, lookup, insert, lookup-insert}
use auto_test_poc.Codec.{soh}
use auto_test_poc.Codec.Messages.{IsAscii, IsMessage}
use auto_test_poc.Codec.Shape.{print_ℕ-IsAscii}
use auto_test_poc.Codec.Fields.{text_eq-print}
use auto_test_poc.Server.{Config, Draw, Session, or_text}

abbrev pub IsValue : Text → Type 0
IsValue v = Lacks soh v × IsAscii v

abbrev pub AllValues : Dict Text → Type 0
AllValues d = All (λ (p : Text × Text). IsValue p.1) d

abbrev pub IsValue? : Option Text → Type 0
IsValue? none = Unit
IsValue? (some v) = IsValue v

pub record IsCleanConfig (cfg : Config) : Type 0 where
  pub comp_id : IsValue cfg.comp_id
  pub begin_string : IsValue cfg.begin_string

pub record IsCleanDraw (draw : Draw) : Type 0 where
  pub now : IsValue draw.now
  pub now_fill : IsValue draw.now_fill
  pub hex_client : IsValue draw.hex_client
  pub hex_order : IsValue draw.hex_order
  pub hex_exec : IsValue draw.hex_exec
  pub hex_fill : IsValue draw.hex_fill

pub record IsCleanSession (s : Session) : Type 0 where
  pub server_comp_id : IsValue s.server_comp_id
  pub client_sender : IsValue? s.client_sender
  pub client_target : IsValue? s.client_target

pub lookup-IsValue : (k : Text) (d : Dict Text) → AllValues d → IsValue? (lookup k d)
unfolding lookup
lookup-IsValue k [] h = tt
lookup-IsValue k ((j, v) ∷ d) h = elim (Bool-cases (text_eq k j)) [
  | inl same ↦ rw same h.0
  | inr other ↦ rw other (lookup-IsValue k d h.1)
]

pub AllValues-append : (d e : Dict Text) → AllValues d → AllValues e → AllValues (d ++ e)
AllValues-append d e hd he = All-append (λ p. IsValue p.1) d e hd he

pub get_or-IsValue : (o : Option Text) (v : Text) → IsValue? o → IsValue v → IsValue (get_or o v)
get_or-IsValue none v ho hv = hv
get_or-IsValue (some w) v ho hv = ho

pub or_else-IsValue : (o p : Option Text) → IsValue? o → IsValue? p → IsValue? (or_else o p)
or_else-IsValue none p ho hp = hp
or_else-IsValue (some w) p ho hp = ho

pub or_text-IsValue : (o : Option Text) (v : Text) → IsValue? o → IsValue v → IsValue (or_text o v)
or_text-IsValue none v ho hv = hv
or_text-IsValue (some []) v ho hv = hv
or_text-IsValue (some (c ∷ s)) v ho hv = ho

pub print_ℕ-IsValue : (n : ℕ) → IsValue (print_ℕ n)
print_ℕ-IsValue n = (print_ℕ-Lacks soh n (omega arith), print_ℕ-IsAscii n)

-- A dict under printed tag numbers is a message, if no number comes twice.
abbrev pub keyed : List (ℕ × Text) → Dict Text
keyed [] = []
keyed ((n, v) ∷ ns) = (print_ℕ n, v) ∷ keyed ns

abbrev pub absent : ℕ → List (ℕ × Text) → Bool
absent n [] = true
absent n ((m, v) ∷ ns) = not (n == m) && absent n ns

abbrev pub unique : List (ℕ × Text) → Bool
unique [] = true
unique ((n, v) ∷ ns) = absent n ns && unique ns

lookup-keyed :
    (n : ℕ) (ns : List (ℕ × Text)) → absent n ns ≡ true → lookup (print_ℕ n) (keyed ns) ≡ none
unfolding lookup
lookup-keyed n [] h = refl
lookup-keyed n ((m, v) ∷ ns) h = elim (text_eq-print n m) [
  | inl (e, same) ↦ absurd (ground (arith, same))
  | inr (e, other) ↦ rw e (lookup-keyed n ns (ground arith))
]

pub keyed-IsMessage :
    (ns : List (ℕ × Text)) → unique ns ≡ true → AllValues (keyed ns) → IsMessage (keyed ns)
keyed-IsMessage [] h hv = tt
keyed-IsMessage ((n, v) ∷ ns) h hv = (
  (n, refl),
  hv.0.0,
  hv.0.1,
  lookup-keyed n ns (ground arith),
  keyed-IsMessage ns (ground arith) hv.1,
)

lookup-insert-none :
    (j k v : Text) (d : Dict Text)
    → lookup j d ≡ none
    → text_eq j k ≡ false
    → lookup j (insert k v d) ≡ none
lookup-insert-none j k v d h ne = lookup-insert j k v d ∙ rw ne h

pub insert-IsMessage :
    (n : ℕ) (k v : Text) (d : Dict Text)
    → k ≡ print_ℕ n
    → IsValue v
    → IsMessage d
    → IsMessage (insert k v d)
unfolding insert lookup
insert-IsMessage n k v [] e hv hd = ((n, e), hv.0, hv.1, refl, tt)
insert-IsMessage n k v ((j, w) ∷ d) e hv hd = elim (Bool-cases (text_eq k j)) [
  | inl same ↦ rw same (hd.0, hv.0, hv.1, hd.3, hd.4)
  | inr other ↦ rw other (
    hd.0,
    hd.1,
    hd.2,
    lookup-insert-none j k v d hd.3 (ground (arith, text_eq_iff j k, text_eq_iff k j)),
    insert-IsMessage n k v d e hv hd.4,
  )
]
