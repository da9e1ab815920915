-- ===== src/Rpc/Exchange/Numbers.antt =====
-- A codec for numbers, with which calls are run on concrete values.
use qtalk_go.Base.{ℕ, zero, suc, true, false, List, [], ◌∷◌, none, some, Result, ok, err, io_fault}
use qtalk_go.Rpc.Exchange.{Any, nil, failure, plain, ResponseHeader, Codec}

abbrev pub encode_header : ResponseHeader → Result (List ℕ)
encode_header hd =
    ok (
      elim hd.continue_ [ true ↦ 1 | false ↦ 0 ] ∷ elim hd.error [ none ↦ 0 ∷ [] | some s ↦ 1 ∷ s ])

abbrev pub decode_header : List ℕ → Result ResponseHeader
decode_header (zero ∷ zero ∷ []) = ok (record { error = none; continue_ = false })
decode_header (zero ∷ suc zero ∷ s) = ok (record { error = some s; continue_ = false })
decode_header (suc zero ∷ zero ∷ []) = ok (record { error = none; continue_ = true })
decode_header (suc zero ∷ suc zero ∷ s) = ok (record { error = some s; continue_ = true })
decode_header _ = err (io_fault 1)

abbrev pub encode_value : Any ℕ → Result (List ℕ)
encode_value nil = ok (0 ∷ [])
encode_value (failure s) = ok (1 ∷ s)
encode_value (plain n) = ok (2 ∷ n ∷ [])

abbrev pub decode_value : List ℕ → Result (Any ℕ)
decode_value (zero ∷ []) = ok nil
decode_value (suc zero ∷ s) = ok (failure s)
decode_value (suc (suc zero) ∷ n ∷ []) = ok (plain n)
decode_value _ = err (io_fault 1)

abbrev pub numbers : Codec ℕ
numbers = record {
  encode_call = λ c. ok c.selector;
  decode_call = λ b. ok (record { selector = b });
  encode_header = encode_header;
  decode_header = decode_header;
  encode_value = encode_value;
  decode_value = decode_value;
}
