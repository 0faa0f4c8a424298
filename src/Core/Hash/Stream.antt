-- ===== src/Core/Hash/Stream.antt =====
-- The hash of a stream of bytes does not depend on how the bytes are cut into calls, nor on whether
-- they come as blocks or one at a time.
use atlas_engine.Base.{
  ℕ, zero, suc, ◌+◌, ◌-◌, ◌≤◌, ◌<◌, ◌≡◌, refl, ap, sym, ◌∙◌, subst, List, [], ◌∷◌, ◌++◌, arith,
  length, length-append, append_assoc, append-nil, take, drop, le→leb, dec_lt, dec_le,
}
use atlas_engine.Core.Hash.{
  Hasher, Lanes, block_bytes, consume, flush, push, push_all, blocks, add_rest, add_bytes, value,
}

append-take-drop : (n : ℕ) (xs : List ℕ) → take n xs ++ drop n xs ≡ xs
append-take-drop zero xs = refl
append-take-drop (suc n) [] = refl
append-take-drop (suc n) (x ∷ xs) = ap (λ l. x ∷ l) (append-take-drop n xs)

length-take_le : (n : ℕ) (xs : List ℕ) → n ≤ length xs → length (take n xs) ≡ n
length-take_le zero xs h = refl
length-take_le (suc n) [] h = absurd (omega arith)
length-take_le (suc n) (x ∷ xs) h = ap suc (length-take_le n xs (omega arith))

take_all : (n : ℕ) (xs : List ℕ) → length xs ≤ n → take n xs ≡ xs
take_all zero [] h = refl
take_all zero (x ∷ xs) h = absurd (omega arith)
take_all (suc n) [] h = refl
take_all (suc n) (x ∷ xs) h = ap (λ l. x ∷ l) (take_all n xs (omega arith))

length-drop : (n : ℕ) (xs : List ℕ) → length (drop n xs) ≡ length xs - n
length-drop zero xs = omega arith
length-drop (suc n) [] = omega arith
length-drop (suc n) (x ∷ xs) = omega (arith, length-drop n xs)

push_all-append :
    (h : Hasher) (xs ys : List ℕ) → push_all h (xs ++ ys) ≡ push_all (push_all h xs) ys
unfolding push_all
push_all-append h [] ys = refl
push_all-append h (x ∷ xs) ys = push_all-append (push h x) xs ys

push_all_none :
    (l : Lanes) (buffer : List ℕ)
    → push_all (record { lanes = l; buffer = buffer }) []
      ≡ record { lanes = l; buffer = buffer ++ [] }
unfolding push_all
push_all_none l buffer = rw (append-nil buffer) refl

flush_short :
    (l : Lanes) (buffer : List ℕ)
    → length buffer < block_bytes
    → flush l buffer ≡ record { lanes = l; buffer = buffer }
unfolding flush
flush_short l buffer h = ground arith

flush_full :
    (l : Lanes) (buffer : List ℕ)
    → length buffer ≡ block_bytes
    → flush l buffer ≡ record { lanes = consume l buffer; buffer = [] }
unfolding flush
flush_full l buffer h = ground arith

-- Bytes that do not go past the end of the block only join it.
push_all-flush :
    (l : Lanes) (buffer bytes : List ℕ)
    → 0 < length bytes
    → length buffer + length bytes ≤ block_bytes
    → push_all (record { lanes = l; buffer = buffer }) bytes ≡ flush l (buffer ++ bytes)
unfolding push_all push
push_all-flush l buffer [] z h = absurd (omega arith)
push_all-flush l buffer (b ∷ []) z h = refl
push_all-flush l buffer (b ∷ c ∷ rest) z h =
    rw (flush_short l (buffer ++ (b ∷ [])) (omega (arith, length-append buffer (b ∷ [])))) (
      push_all-flush l (buffer ++ (b ∷ [])) (c ∷ rest) (omega arith)
        (omega (arith, length-append buffer (b ∷ [])))
      ∙ ap (flush l) (append_assoc buffer (b ∷ []) (c ∷ rest)))

-- Bytes that go to the end of the block or past it: the block is consumed.
push_all-fill :
    (l : Lanes) (buffer bytes : List ℕ)
    → length buffer < block_bytes
    → block_bytes ≤ length buffer + length bytes
    → push_all (record { lanes = l; buffer = buffer }) bytes
      ≡ push_all
          (record {
            lanes = consume l (buffer ++ take (block_bytes - length buffer) bytes);
            buffer = [];
          })
          (drop (block_bytes - length buffer) bytes)
push_all-fill l buffer bytes h k =
    let room = block_bytes - length buffer in
    let front : length (take room bytes) ≡ room = length-take_le room bytes (omega arith) in
    let full : length (buffer ++ take room bytes) ≡ block_bytes =
      omega (arith, length-append buffer (take room bytes), front) in
    ap (push_all (record { lanes = l; buffer = buffer })) (sym (append-take-drop room bytes))
    ∙ (push_all-append (record { lanes = l; buffer = buffer }) (take room bytes) (drop room bytes)
        ∙ ap (λ f. push_all f (drop room bytes))
            (push_all-flush l buffer (take room bytes) (omega (arith, front)) (omega (arith, front))
              ∙ flush_full l (buffer ++ take room bytes) full))

-- Bytes that stay short of the end of the block are held.
push_all_short :
    (l : Lanes) (buffer bytes : List ℕ)
    → length buffer + length bytes < block_bytes
    → push_all (record { lanes = l; buffer = buffer }) bytes
      ≡ record { lanes = l; buffer = buffer ++ bytes }
push_all_short l buffer [] h = push_all_none l buffer
push_all_short l buffer (b ∷ bytes) h =
    push_all-flush l buffer (b ∷ bytes) (omega arith) (omega arith)
    ∙ flush_short l (buffer ++ (b ∷ bytes)) (omega (arith, length-append buffer (b ∷ bytes)))

blocks_step :
    (fuel : ℕ) (l : Lanes) (bytes : List ℕ)
    → block_bytes ≤ length bytes
    → blocks (suc fuel) l bytes
      ≡ blocks fuel (consume l (take block_bytes bytes)) (drop block_bytes bytes)
unfolding blocks
blocks_step fuel l bytes h = ground (arith, le→leb block_bytes (length bytes) h)

blocks_stop :
    (fuel : ℕ) (l : Lanes) (bytes : List ℕ)
    → length bytes < block_bytes
    → blocks fuel l bytes ≡ record { lanes = l; buffer = bytes }
unfolding blocks
blocks_stop zero l bytes h = refl
blocks_stop (suc fuel) l bytes h = ground arith

blocks-push_all :
    (fuel : ℕ) (l : Lanes) (bytes : List ℕ)
    → length bytes ≤ fuel
    → blocks fuel l bytes ≡ push_all (record { lanes = l; buffer = [] }) bytes
blocks-push_all zero l bytes h =
    blocks_stop 0 l bytes (omega arith) ∙ sym (push_all_short l [] bytes (omega arith))
blocks-push_all (suc fuel) l bytes h = elim (dec_le block_bytes (length bytes)) [
  | yes full ↦
      blocks_step fuel l bytes full
      ∙ (blocks-push_all fuel (consume l (take block_bytes bytes)) (drop block_bytes bytes)
            (omega (arith, length-drop block_bytes bytes))
          ∙ sym (push_all-fill l [] bytes (omega arith) (omega arith)))
  | no short ↦
      blocks_stop (suc fuel) l bytes (omega arith) ∙ sym (push_all_short l [] bytes (omega arith))
]

add_rest_empty :
    (l : Lanes) (bytes : List ℕ)
    → add_rest (record { lanes = l; buffer = [] }) bytes
      ≡ push_all (record { lanes = l; buffer = [] }) bytes
unfolding add_rest
add_rest_empty l bytes = blocks-push_all (length bytes) l bytes (omega arith)

add_rest_held :
    (l : Lanes) (buffer bytes : List ℕ)
    → 0 < length buffer
    → add_rest (record { lanes = l; buffer = buffer }) bytes ≡ record { lanes = l; buffer = buffer }
unfolding add_rest
add_rest_held l buffer bytes h = ground arith

add_bytes_held :
    (l : Lanes) (buffer bytes : List ℕ)
    → 0 < length buffer
    → let room = block_bytes - length buffer in
      add_bytes (record { lanes = l; buffer = buffer }) bytes
      ≡ add_rest (flush l (buffer ++ take room bytes)) (drop room bytes)
unfolding add_bytes
add_bytes_held l buffer bytes h = ground arith

add_bytes_empty :
    (l : Lanes) (bytes : List ℕ)
    → add_bytes (record { lanes = l; buffer = [] }) bytes ≡ blocks (length bytes) l bytes
unfolding add_bytes
add_bytes_empty l bytes = refl

fills-push_all :
    (l : Lanes) (buffer bytes : List ℕ)
    → 0 < length buffer
    → length buffer < block_bytes
    → block_bytes ≤ length buffer + length bytes
    → add_bytes (record { lanes = l; buffer = buffer }) bytes
      ≡ push_all (record { lanes = l; buffer = buffer }) bytes
fills-push_all l buffer bytes z h k =
    let room = block_bytes - length buffer in
    let front : length (take room bytes) ≡ room = length-take_le room bytes (omega arith) in
    let full : length (buffer ++ take room bytes) ≡ block_bytes =
      omega (arith, length-append buffer (take room bytes), front) in
    add_bytes_held l buffer bytes z
    ∙ (ap (λ f. add_rest f (drop room bytes)) (flush_full l (buffer ++ take room bytes) full)
        ∙ (add_rest_empty (consume l (buffer ++ take room bytes)) (drop room bytes)
            ∙ sym (push_all-fill l buffer bytes h k)))

held-push_all :
    (l : Lanes) (buffer bytes : List ℕ)
    → 0 < length buffer
    → length buffer + length bytes < block_bytes
    → add_bytes (record { lanes = l; buffer = buffer }) bytes
      ≡ push_all (record { lanes = l; buffer = buffer }) bytes
held-push_all l buffer bytes z h =
    let room = block_bytes - length buffer in
    add_bytes_held l buffer bytes z
    ∙ (ap (λ bs. add_rest (flush l (buffer ++ bs)) (drop room bytes))
          (take_all room bytes (omega arith))
        ∙ (ap (λ f. add_rest f (drop room bytes))
              (flush_short l (buffer ++ bytes) (omega (arith, length-append buffer bytes)))
            ∙ (add_rest_held l (buffer ++ bytes) (drop room bytes)
                  (omega (arith, length-append buffer bytes))
                ∙ sym (push_all_short l buffer bytes h))))

-- While less than a block is held, the call that copies whole blocks leaves the same state as taking
-- the bytes one at a time.
pub add_bytes-push_all :
    (h : Hasher) (bytes : List ℕ)
    → length h.buffer < block_bytes
    → add_bytes h bytes ≡ push_all h bytes
add_bytes-push_all h bytes b = elim (dec_lt 0 (length h.buffer)) [
  | yes z ↦ elim (dec_le block_bytes (length h.buffer + length bytes)) [
    | yes k ↦ fills-push_all h.lanes h.buffer bytes z b k
    | no k ↦ held-push_all h.lanes h.buffer bytes z (omega arith)
  ]
  | no z ↦ start h.lanes h.buffer (omega arith)
]
  where
    start :
        (l : Lanes) (buffer : List ℕ)
        → length buffer ≡ 0
        → add_bytes (record { lanes = l; buffer = buffer }) bytes
          ≡ push_all (record { lanes = l; buffer = buffer }) bytes
    start l [] e = add_bytes_empty l bytes ∙ blocks-push_all (length bytes) l bytes (omega arith)
    start l (c ∷ rest) e = absurd (omega arith)

push-IsHeld :
    (h : Hasher) (b : ℕ) → length h.buffer < block_bytes → length (push h b).buffer < block_bytes
unfolding push flush
push-IsHeld h b l = ground (arith, length-append h.buffer (b ∷ []))

-- No more than the bytes of an unfinished block are ever held, whichever way the bytes come.
pub push_all-IsHeld :
    (h : Hasher) (bytes : List ℕ)
    → length h.buffer < block_bytes
    → length (push_all h bytes).buffer < block_bytes
unfolding push_all
push_all-IsHeld h [] l = l
push_all-IsHeld h (b ∷ bytes) l = push_all-IsHeld (push h b) bytes (push-IsHeld h b l)

-- From a hasher that holds less than a block, two calls leave the state, and so the value, that one
-- call on all the bytes leaves, and less than a block is held again.
pub add_bytes-append :
    (h : Hasher) (xs ys : List ℕ)
    → length h.buffer < block_bytes
    → (add_bytes (add_bytes h xs) ys ≡ add_bytes h (xs ++ ys))
      × (value (add_bytes (add_bytes h xs) ys) ≡ value (add_bytes h (xs ++ ys)))
      × (length (add_bytes h xs).buffer < block_bytes)
add_bytes-append h xs ys b =
    let first = add_bytes-push_all h xs b in
    let held : length (add_bytes h xs).buffer < block_bytes =
      subst (λ f. length f.buffer < block_bytes) (sym first) (push_all-IsHeld h xs b) in
    let same : add_bytes (add_bytes h xs) ys ≡ add_bytes h (xs ++ ys) =
      add_bytes-push_all (add_bytes h xs) ys held
      ∙ (ap (λ f. push_all f ys) first
          ∙ (sym (push_all-append h xs ys) ∙ sym (add_bytes-push_all h (xs ++ ys) b))) in
    (same, ap value same, held)
