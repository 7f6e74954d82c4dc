-- ===== src/Server/Http/Bodies.antt =====
-- `readBounded` (server/http.ts): streamed bodies against buffered ones.
use tetrac_login_sdk.Prelude.{
  true, false, Text, ℕ, ◌+◌, ◌≤◌, ◌≡◌, refl, sym, ap, ◌∙◌, List, [], ◌∷◌, ◌++◌, append_assoc, map,
  none, some, length, length-append, ltb, if◌then◌else◌, arith, Bool-cases, inl, inr,
}
use tetrac_login_sdk.Server.Http.{BodyParser, buffered, stream, read_chunks, read_bounded}

-- The bytes of the reads of a stream.
unfoldable pub flatten : List (List ℕ) → List ℕ
flatten [] = []
flatten (c ∷ cs) = c ++ flatten cs

module _ (parser : BodyParser) where
  -- The text that a streaming decoder gives in all, after the chunks that it has seen.
  unfoldable pub streamed : List (List ℕ) → List (List ℕ) → Text
  streamed seen [] = parser.decode_rest seen
  streamed seen (c ∷ cs) = parser.decode_chunk seen c ++ streamed (seen ++ (c ∷ [])) cs

  -- What a streaming decoder is documented to do: the texts of its chunks are together the text of
  -- all their bytes.
  abbrev pub DecodesWhole : Type 0
  DecodesWhole = (chunks : List (List ℕ)) → streamed [] chunks ≡ parser.decode (flatten chunks)

  read_chunks-flatten :
      (max_bytes total : ℕ) (seen : List (List ℕ)) (out : Text) (chunks : List (List ℕ))
      → total ≤ max_bytes
      → read_chunks parser max_bytes total seen out (map some chunks) ≡ (
          if ltb max_bytes (total + length (flatten chunks))
          then none
          else some (out ++ streamed seen chunks))
  unfolding read_chunks flatten streamed
  read_chunks-flatten max_bytes total seen out [] h =
      let fits : ltb max_bytes (total + 0) ≡ false = ground arith in rw fits refl
  read_chunks-flatten max_bytes total seen out (c ∷ cs) h =
      let size : length (c ++ flatten cs) ≡ length c + length (flatten cs) =
        length-append c (flatten cs) in
      elim (Bool-cases (ltb max_bytes (total + length c))) [
        | inl over ↦
            let all_over : ltb max_bytes (total + length (c ++ flatten cs)) ≡ true = ground arith in
            rw (over, all_over) refl
        | inr fits ↦
            let regroup : total + length c + length (flatten cs)
                ≡ total + length (c ++ flatten cs) =
              omega (arith, size) in
            rw fits (
              read_chunks-flatten max_bytes (total + length c) (seen ++ (c ∷ []))
                (out ++ parser.decode_chunk seen c) cs (ground arith)
              ∙ rw
                  (
                    regroup,
                    append_assoc out (parser.decode_chunk seen c) (streamed (seen ++ (c ∷ [])) cs),
                  )
                  refl)
      ]

  stream-flatten :
      DecodesWhole
      → (max_bytes : ℕ) (chunks : List (List ℕ))
      → read_bounded parser max_bytes (stream (map some chunks)) ≡ (
          if ltb max_bytes (length (flatten chunks))
          then none
          else some (parser.decode (flatten chunks)))
  unfolding read_bounded
  stream-flatten whole max_bytes chunks =
      let none_before : 0 + length (flatten chunks) ≡ length (flatten chunks) = omega arith in
      read_chunks-flatten max_bytes 0 [] [] chunks (omega arith)
      ∙ (ap (λ n. if ltb max_bytes n then none else some (streamed [] chunks)) none_before
          ∙ ap (λ s. if ltb max_bytes (length (flatten chunks)) then none else some s)
              (whole chunks))

  -- However its bytes are cut into reads, a streamed body is accepted exactly where they are at most
  -- the bound, and read as the text of all of them; a buffered body is read as a stream of other
  -- bytes, which are its text encoded again. The streaming decoder gives the text of all the bytes,
  -- and decoding the other bytes gives the same text.
  pub read_bounded-flatten :
      DecodesWhole
      → (max_bytes : ℕ) (chunks others : List (List ℕ))
      → flatten others ≡ parser.encode (parser.decode (flatten chunks))
      → parser.decode (flatten others) ≡ parser.decode (flatten chunks)
      → (read_bounded parser max_bytes (stream (map some chunks)) ≡ (
          if ltb max_bytes (length (flatten chunks))
          then none
          else some (parser.decode (flatten chunks))))
        × (read_bounded parser max_bytes (buffered (some (flatten chunks)))
            ≡ read_bounded parser max_bytes (stream (map some others)))
  unfolding read_bounded
  read_bounded-flatten whole max_bytes chunks others encoded same_text = (
    stream-flatten whole max_bytes chunks,
    sym (stream-flatten whole max_bytes others ∙ rw (same_text, encoded) refl),
  )
