-- ===== src/Engine/Fhe/RoundTrip.antt =====
-- What FHEManager::decrypt_template (iris-engine2/src/fhe.cpp) makes of what encrypt_template wrote.
use eye_d.Base.{
  ℕ, ◌+◌, ◌%◌, ◌^◌, ◌<◌, ◌≡◌, refl, sym, ap, subst, suc, true, false, List, [], ◌∷◌, ◌++◌, some,
  arith, length, length-append, take, take-append, drop, drop-append, append_assoc, map, ltb, codes,
}
use eye_d.Engine.Db.{IrisTemplate}
use eye_d.Engine.Fhe.{
  Library, PackedIrisCode, FheManager, to_bytes, from_bytes, seal, combine, frame, encrypt_scales,
  encrypt_template, next_span, deserialize_spans, deserialize_encrypted, decrypt_scales,
  decrypt_template, active_ctx, split_code,
}
use eye_d.Engine.Fhe.Spans.{from_bytes-to_bytes, length-to_bytes}

-- What the iris library promises of a context with its keys: it encrypts every code, as bytes too, and
-- gets the code back from either.
pub record IsReversible {X K E B D F : Type 0} (lib : Library X K E B D F) (ctx : X) : Type 0 where
  pub enc : PackedIrisCode B → E
  pub ser : E → List ℕ
  pub encrypts : (code : PackedIrisCode B) → lib.encrypt ctx code ≡ some (enc code)
  pub serializes : (et : E) → lib.serialize et ≡ some (ser et)
  pub deserializes : (et : E) → lib.deserialize ctx (ser et) ≡ some et
  pub decrypts : (code : PackedIrisCode B) → lib.decrypt ctx (enc code) ≡ some code

module _ {X K E B D F : Type 0} (lib : Library X K E B D F) (ctx : X)
    (l : IsReversible lib ctx) where
  combined : List (PackedIrisCode B) → List (PackedIrisCode B) → List (PackedIrisCode B)
  combined [] masks = []
  combined (c ∷ cs) masks = combine lib c masks ∷ combined cs (drop 1 masks)

  payload : List (PackedIrisCode B) → List ℕ
  payload [] = []
  payload (c ∷ cs) = frame lib (l.ser (l.enc c)) ++ payload cs

  sealed : (code : PackedIrisCode B) → seal lib ctx code ≡ some (l.ser (l.enc code))
  unfolding seal
  sealed code = rw (l.encrypts code, seal) (l.serializes (l.enc code))

  encrypt_scales-payload :
      (cs masks : List (PackedIrisCode B))
      → encrypt_scales lib ctx cs masks ≡ some (payload (combined cs masks))
  unfolding encrypt_scales payload combined
  encrypt_scales-payload [] masks = refl
  encrypt_scales-payload (c ∷ cs) masks =
      rw (sealed (combine lib c masks), encrypt_scales-payload cs (drop 1 masks), encrypt_scales)
        refl

  -- One template of the blob, behind the bytes `pre`.
  next_span-frame :
      (pre ser rest : List ℕ)
      → length (pre ++ (frame lib ser ++ rest)) < 2 ^ 64
      → (next_span lib (pre ++ (frame lib ser ++ rest)) (length pre)
          ≡ some (length pre + 8, length ser))
        × (take (length ser) (drop (length pre + 8) (pre ++ (frame lib ser ++ rest))) ≡ ser)
        × ((length pre + 8 + length ser) % 2 ^ 64 ≡ length (pre ++ frame lib ser))
  unfolding frame next_span
  next_span-frame pre ser rest small =
      let head = to_bytes 8 (length ser) in
      let bytes = pre ++ ((head ++ ser) ++ rest) in
      let total : length bytes ≡ length pre + 8 + length ser + length rest = omega (
        arith,
        length-append pre ((head ++ ser) ++ rest),
        length-append (head ++ ser) rest,
        length-append head ser,
        length-to_bytes 8 (length ser),
      ) in
      let split : bytes ≡ pre ++ (head ++ (ser ++ rest)) =
        ap (◌++◌ pre) (append_assoc head ser rest) in
      let size : from_bytes 8 (drop (length pre) bytes) ≡ length ser =
        rw (split, drop-append pre (head ++ (ser ++ rest)))
          (from_bytes-to_bytes 8 (length ser) (ser ++ rest) (omega (arith, total, small))) in
      let before : length (pre ++ head) ≡ length pre + 8 =
        omega (arith, length-append pre head, length-to_bytes 8 (length ser)) in
      let behind : drop (length pre + 8) bytes ≡ ser ++ rest =
        rw (split, sym (append_assoc pre head (ser ++ rest)), sym before)
          (drop-append (pre ++ head) (ser ++ rest)) in
      (
        ground (arith, total, size, small),
        rw behind (take-append ser rest),
        omega (
          arith,
          total,
          small,
          length-append pre (head ++ ser),
          length-append head ser,
          length-to_bytes 8 (length ser),
        ),
      )

  deserialize_spans-payload :
      (cs : List (PackedIrisCode B)) (pre bytes : List ℕ) (offset : ℕ)
      → bytes ≡ pre ++ payload cs
      → offset ≡ length pre
      → length bytes < 2 ^ 64
      → deserialize_spans lib ctx bytes (length cs) offset ≡ map l.enc cs
  unfolding deserialize_spans payload
  deserialize_spans-payload [] pre bytes offset e o small = refl
  deserialize_spans-payload (c ∷ cs) pre bytes offset e o small =
      let ser = l.ser (l.enc c) in
      let next = next_span-frame pre ser (payload cs) (subst (λ b. length b < 2 ^ 64) e small) in
      let found : next_span lib bytes offset ≡ some (length pre + 8, length ser) =
        rw (e, o) next.0 in
      let cut : take (length ser) (drop (length pre + 8) bytes) ≡ ser = rw e next.1 in
      let ih =
        deserialize_spans-payload cs (pre ++ frame lib ser) bytes _
          (rw e (sym (append_assoc pre (frame lib ser) (payload cs)))) next.2 small in
      rw (found, cut, l.deserializes (l.enc c), deserialize_spans) (ap (◌∷◌ (l.enc c)) ih)

  mask_code : PackedIrisCode B → PackedIrisCode B
  mask_code c = record { code_bits = c.mask_bits; mask_bits = lib.no_bits }

  decrypt_scales-map :
      (cs : List (PackedIrisCode B))
      → decrypt_scales lib ctx (map l.enc cs) ≡ some (cs, map mask_code cs)
  unfolding decrypt_scales mask_code split_code
  decrypt_scales-map [] = refl
  decrypt_scales-map (c ∷ cs) = rw (l.decrypts c, decrypt_scales-map cs, decrypt_scales) refl

  length-combined : (cs masks : List (PackedIrisCode B)) → length (combined cs masks) ≡ length cs
  unfolding combined
  length-combined [] masks = refl
  length-combined (c ∷ cs) masks = ap suc (length-combined cs (drop 1 masks))

  code_bits-combined :
      (cs masks : List (PackedIrisCode B))
      → map (λ c. c.code_bits) (combined cs masks) ≡ map (λ c. c.code_bits) cs
  unfolding combined combine
  code_bits-combined [] masks = refl
  code_bits-combined (c ∷ cs) [] = ap (◌∷◌ c.code_bits) (code_bits-combined cs [])
  code_bits-combined (c ∷ cs) (mask ∷ masks) = ap (◌∷◌ c.code_bits) (code_bits-combined cs masks)

  mask_code-combined :
      (cs masks : List (PackedIrisCode B))
      → length masks ≡ length cs
      → map (λ c. c.code_bits) (map mask_code (combined cs masks)) ≡ map (λ c. c.code_bits) masks
  unfolding combined combine mask_code
  mask_code-combined [] [] h = refl
  mask_code-combined [] (mask ∷ masks) h = absurd (omega (arith, h))
  mask_code-combined (c ∷ cs) [] h = absurd (omega (arith, h))
  mask_code-combined (c ∷ cs) (mask ∷ masks) h =
      ap (◌∷◌ mask.code_bits) (mask_code-combined cs masks (omega (arith, h)))

  abbrev pub ready : FheManager X
  ready = record { ctx = some ctx; active = true }

  deserialize_encrypted-payload :
      (cs : List (PackedIrisCode B))
      → length cs < 2 ^ 32
      → length (to_bytes 4 (length cs % 2 ^ 32) ++ payload cs) < 2 ^ 64
      → deserialize_encrypted lib ready (to_bytes 4 (length cs % 2 ^ 32) ++ payload cs)
        ≡ map l.enc cs
  unfolding deserialize_encrypted active_ctx
  deserialize_encrypted-payload cs few small =
      let head = to_bytes 4 (length cs % 2 ^ 32) in
      let four : length head ≡ 4 = length-to_bytes 4 (length cs % 2 ^ 32) in
      let enough : ltb (length (head ++ payload cs)) 4 ≡ false =
        ground (arith, four, length-append head (payload cs)) in
      let count : from_bytes 4 (head ++ payload cs) ≡ length cs =
        omega (arith, from_bytes-to_bytes 4 (length cs % 2 ^ 32) (payload cs) (omega arith), few) in
      rw (enough, count) (deserialize_spans-payload cs head _ 4 refl (sym four) small)

  blob : List (PackedIrisCode B) → List ℕ
  blob cs = to_bytes 4 (length cs % 2 ^ 32) ++ payload cs

  encrypt_template-blob :
      (tmpl : IrisTemplate (PackedIrisCode B))
      → (encrypt_template lib ready tmpl).0 ≡ blob (combined tmpl.iris_codes tmpl.mask_codes)
  unfolding encrypt_template active_ctx blob
  encrypt_template-blob tmpl =
      rw
        (
          encrypt_scales-payload tmpl.iris_codes tmpl.mask_codes,
          length-combined tmpl.iris_codes tmpl.mask_codes,
          encrypt_template,
        )
        refl

  decrypt_template-blob :
      (cs : List (PackedIrisCode B))
      → 0 < length cs
      → length cs < 2 ^ 32
      → length (blob cs) < 2 ^ 64
      → decrypt_template lib ready (blob cs)
        ≡ some (record {
          iris_codes = cs;
          mask_codes = map mask_code cs;
          iris_code_version = codes "v2.0";
        })
  unfolding decrypt_template active_ctx blob
  decrypt_template-blob [] one few small = absurd (omega (arith, one))
  decrypt_template-blob (c ∷ cs) one few small =
      rw (deserialize_encrypted-payload (c ∷ cs) few small, decrypt_scales-map (c ∷ cs)) refl

  -- With a context that is lossless, a template of one to 2 ^ 32 - 1 scales whose blob is shorter than
  -- 2 ^ 64 bytes is decrypted from the blob that encrypt_template makes of it: each scale has the code
  -- bits of the iris code, and each mask, where there is one for every scale, those of the mask code.
  pub decrypt_template-encrypt_template :
      (tmpl : IrisTemplate (PackedIrisCode B))
      → 0 < length tmpl.iris_codes
      → length tmpl.iris_codes < 2 ^ 32
      → length (encrypt_template lib ready tmpl).0 < 2 ^ 64
      → (back : IrisTemplate (PackedIrisCode B)) × (decrypt_template lib ready
            (encrypt_template lib ready tmpl).0
          ≡ some back)
        × (map (λ c. c.code_bits) back.iris_codes ≡ map (λ c. c.code_bits) tmpl.iris_codes)
        × (length tmpl.mask_codes ≡ length tmpl.iris_codes
            → map (λ c. c.code_bits) back.mask_codes ≡ map (λ c. c.code_bits) tmpl.mask_codes)
  decrypt_template-encrypt_template tmpl one few small =
      let cs = combined tmpl.iris_codes tmpl.mask_codes in
      let n = length-combined tmpl.iris_codes tmpl.mask_codes in
      let e = encrypt_template-blob tmpl in
      let back =
        decrypt_template-blob cs (omega (arith, n, one)) (omega (arith, n, few))
          (subst (λ b. length b < 2 ^ 64) e small) in
      (
        record { iris_codes = cs; mask_codes = map mask_code cs; iris_code_version = codes "v2.0" },
        rw e back,
        code_bits-combined tmpl.iris_codes tmpl.mask_codes,
        mask_code-combined tmpl.iris_codes tmpl.mask_codes,
      )
