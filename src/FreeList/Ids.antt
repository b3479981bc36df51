-- ===== src/FreeList/Ids.antt =====
-- No id is handed out twice while it is held, and every held id keeps its payload.
use tiltyard.Base.{
  ℕ, zero, suc, ◌+◌, ◌-◌, ◌*◌, ◌≤◌, ◌<◌, ◌≡◌, ◌≢◌, refl, ap, ◌∙◌, List, [], ◌∷◌, Option, none, some,
  get_or, length, sub32, ◌==◌, if◌then◌else◌, arith, Bool-cases, inl, inr,
}
use tiltyard.Memory.{set, cell, length-set, cell-set, get_or-set}
use tiltyard.FreeList.{FreeList, uninitialised, get, set_payload, release}
use tiltyard.Bytes.{read_at_lem, write_at_lem}

pub length-uninitialised : (A : Type 0) (n : ℕ) → length (uninitialised {A = A} n) ≡ n
unfolding uninitialised
length-uninitialised A zero = refl
length-uninitialised A (suc n) = ap suc (length-uninitialised A n)

module _ {A : Type 0} where
  -- The ids held, with their payloads.
  abbrev pub lookup : ℕ → List (ℕ × A) → Option A
  lookup id [] = none
  lookup id ((j, v) ∷ held) = if j == id then some v else lookup id held

  abbrev pub erase : ℕ → List (ℕ × A) → List (ℕ × A)
  erase id [] = []
  erase id ((j, v) ∷ held) = if j == id then erase id held else (j, v) ∷ erase id held

  -- The list against the ids held: those above `sp` on the stack are free, and each once.
  pub record IsList (fl : FreeList A) (held : List (ℕ × A)) : Type 0 where
    pub stack_size : length fl.stack ≡ fl.capacity
    pub payload_size : length fl.payloads ≡ fl.capacity
    pub inside : fl.sp < fl.capacity
    pub more : 1 < fl.capacity
    pub word : fl.capacity ≤ 2147483648
    pub entry : 0 < fl.type_size
    pub bytes : fl.capacity * fl.type_size < 4294967296
    pub free_below : (i : ℕ) → fl.sp < i → i < fl.capacity → cell fl.stack i < fl.capacity
    pub is_free : (i : ℕ) → fl.sp < i → i < fl.capacity → lookup (cell fl.stack i) held ≡ none
    pub distinct :
        (i j : ℕ) → fl.sp < i → i < j → j < fl.capacity → cell fl.stack i ≢ cell fl.stack j
    pub counted : length held ≤ fl.sp
    pub below : (id : ℕ) (v : A) → lookup id held ≡ some v → id < fl.capacity
    pub stored : (id : ℕ) (v : A) → lookup id held ≡ some v → get_or fl.payloads id none ≡ some v

  -- Every id below the capacity is that of an entry.
  pub get_lem :
      (fl : FreeList A) (held : List (ℕ × A)) (id : ℕ)
      → IsList fl held
      → id < fl.capacity
      → get fl id ≡ get_or fl.payloads id none
  unfolding get
  get_lem fl held id h k =
      read_at_lem fl.payloads id fl.capacity fl.type_size k h.entry (omega (arith, h.bytes))

  pub set_payload_lem :
      (fl : FreeList A) (held : List (ℕ × A)) (id : ℕ) (v : A)
      → IsList fl held
      → id < fl.capacity
      → set_payload fl id v ≡ record fl { payloads = set fl.payloads id (some v) }
  unfolding set_payload
  set_payload_lem fl held id v h k =
      rw (write_at_lem fl.payloads id fl.capacity fl.type_size k h.entry (omega (arith, h.bytes)) v)
        refl

  pub lookup-erase :
      (id j : ℕ) (held : List (ℕ × A))
      → lookup j (erase id held) ≡ (if id == j then none else lookup j held)
  lookup-erase id j [] = ground arith
  lookup-erase id j ((k, v) ∷ held) = ground (arith, lookup-erase id j held)

  length-erase-le : (id : ℕ) (held : List (ℕ × A)) → length (erase id held) ≤ length held
  length-erase-le id [] = omega arith
  length-erase-le id ((k, v) ∷ held) = ground (arith, length-erase-le id held)

  pub length-erase :
      (id : ℕ) (held : List (ℕ × A)) {v : A}
      → lookup id held ≡ some v
      → length (erase id held) < length held
  length-erase id [] h = cc
  length-erase id ((k, w) ∷ held) h = elim (Bool-cases (k == id)) [
    | inl y ↦ rw y (omega (arith, length-erase-le id held))
    | inr n ↦ rw n (omega (arith, length-erase id held (rw n at h)))
  ]

  -- With room above `sp`, taking the id there.
  pub take_id-IsList :
      (fl : FreeList A) (held : List (ℕ × A)) (v : A)
      → IsList fl held
      → fl.sp + 1 < fl.capacity
      → let id = cell fl.stack (fl.sp + 1) in
        IsList
          (record fl { sp = fl.sp + 1; payloads = set fl.payloads id (some v) })
          ((id, v) ∷ held)
  take_id-IsList fl held v h room =
      let id = cell fl.stack (fl.sp + 1) in
      let inside : id < length fl.payloads =
        omega (arith, h.payload_size, h.free_below (fl.sp + 1)) in
      record {
        stack_size = h.stack_size;
        payload_size = length-set fl.payloads id (some v) ∙ h.payload_size;
        inside = room;
        more = h.more;
        word = h.word;
        entry = h.entry;
        bytes = h.bytes;
        free_below = λ i p k. h.free_below i (omega arith) k;
        is_free = λ i p k.
            ground (arith, h.is_free i (omega arith) k, h.distinct (fl.sp + 1) i (omega arith) p k);
        distinct = λ i j p q k. h.distinct i j (omega arith) q k;
        counted = omega (arith, h.counted);
        below = λ j w e. ground (arith, h.below j w, h.payload_size);
        stored =
            λ j w e. ground (arith, h.stored j w, get_or-set fl.payloads id j (some v) none inside);
      }

  -- `fl_release` of an id that is held: it is no longer held, its payload is returned, and the id is
  -- the one that `fl_insert` hands out next.
  pub release-IsList :
      (fl : FreeList A) (held : List (ℕ × A)) (id : ℕ) (v : A)
      → IsList fl held
      → lookup id held ≡ some v
      → IsList (release fl id).1 (erase id held)
  unfolding release
  release-IsList fl held id v h e =
      let used : 0 < fl.sp = omega (arith, h.counted, length-erase id held e) in
      let one_less : sub32 fl.sp 1 ≡ fl.sp - 1 = omega (arith, h.inside, h.word) in
      let at = λ (i : ℕ). cell-set fl.stack fl.sp i id (omega (arith, h.stack_size, h.inside)) in
      rw one_less (record {
        stack_size = length-set fl.stack fl.sp id ∙ h.stack_size;
        payload_size = h.payload_size;
        inside = omega (arith, h.inside);
        more = h.more;
        word = h.word;
        entry = h.entry;
        bytes = h.bytes;
        free_below = λ i p k. ground (arith, at i, h.free_below i, h.below id v e);
        is_free = λ i p k.
            ground
              (arith, at i, h.is_free i, lookup-erase id (cell (set fl.stack fl.sp id) i) held);
        distinct = λ i j p q k. ground (arith, at i, at j, h.distinct i j, h.is_free j, e);
        counted = omega (arith, h.counted, length-erase id held e);
        below = λ j w f. ground (arith, h.below j w, lookup-erase id j held);
        stored = λ j w f. ground (arith, h.stored j w, lookup-erase id j held);
      })
