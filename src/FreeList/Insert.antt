-- ===== src/FreeList/Insert.antt =====
-- `fl_init`, `fl_next_id` and `fl_insert` against the ids held, the growth of the list included.
use tiltyard.Base.{
  ℕ, ◌+◌, ◌-◌, ◌*◌, ◌≤◌, ◌<◌, ◌≡◌, ◌≢◌, refl, ap, ◌∙◌, true, false, List, [], ◌∷◌, ◌++◌, none, some,
  take_all, length-append, u32, sub32, ltb, ◌==◌, if◌then◌else◌, arith, Bool-cases, Option-cases,
  inl, inr,
}
use tiltyard.Memory.{set, cell, length-junk_from, cell-junk_from, cell-set, get_or-append}
use tiltyard.Bytes.{entries_of}
use tiltyard.FreeList.{
  FreeList, uninitialised, init, doubled_payloads, doubled, ready, next_id, insert, get, release,
}
use tiltyard.FreeList.Ids.{
  lookup, erase, lookup-erase, length-erase, release-IsList, IsList, length-uninitialised, get_lem,
  set_payload_lem, take_id-IsList,
}

module _ {A : Type 0} where
  init-IsList :
      (type_size id_limit : ℕ)
      → 0 < type_size
      → type_size < 256
      → IsList (init {A = A} type_size id_limit) []
  unfolding init
  init-IsList type_size id_limit q y =
      let at = λ (i : ℕ). cell-junk_from (λ i. i) 0 8192 i in
      record {
        stack_size = length-junk_from (λ i. i) 0 8192;
        payload_size = length-uninitialised A 8192;
        inside = omega arith;
        more = omega (arith);
        word = omega arith;
        entry = q;
        bytes = omega arith;
        free_below = λ i p k. omega (arith, at i k);
        is_free = λ i p k. refl;
        distinct = λ i j p q k. omega (arith, at i (omega arith), at j k);
        counted = omega arith;
        below = λ id v e. cc;
        stored = λ id v e. cc;
      }

  none_above :
      (fl : FreeList A) (held : List (ℕ × A)) (id : ℕ)
      → IsList fl held
      → fl.capacity ≤ id
      → lookup id held ≡ none
  none_above fl held id h k = elim (Option-cases (lookup id held)) [
    | inl e ↦ e
    | inr (v, e) ↦ absurd (omega (arith, h.below id v e))
  ]

  doubled_payloads_lem :
      (fl : FreeList A) (held : List (ℕ × A))
      → IsList fl held
      → fl.capacity * 2 * fl.type_size < 4294967296
      → doubled_payloads fl ≡ fl.payloads ++ uninitialised fl.capacity
  unfolding doubled_payloads
  doubled_payloads_lem fl held h bytes =
      let n = fl.capacity in
      let block = entries_of (n * 2) fl.type_size h.entry bytes in
      let copied = entries_of n fl.type_size h.entry h.bytes in
      let copy = take_all n fl.payloads (omega (arith, h.payload_size)) in
      let rest : n * 2 - n ≡ n = omega arith in
      rw (block, copied, copy, rest)
        (take_all (n * 2) (fl.payloads ++ uninitialised n) (
          omega (
            arith,
            length-append fl.payloads (uninitialised n),
            length-uninitialised A n,
            h.payload_size,
          )))

  -- At the last cell the list doubles, and the ids of the upper half are free.
  doubled-IsList :
      (junk : ℕ → ℕ) (fl : FreeList A) (held : List (ℕ × A))
      → IsList fl held
      → fl.capacity ≤ 1073741824
      → fl.capacity * 2 * fl.type_size < 4294967296
      → IsList (doubled junk fl) held
  unfolding doubled
  doubled-IsList junk fl held h small bytes =
      let n = fl.capacity in
      let cells = λ (i : ℕ). if ltb i n then junk i else i in
      let at = λ (i : ℕ). cell-junk_from cells 0 (n * 2) i in
      let double : u32 (n * 2) ≡ n * 2 = omega arith in
      rw (doubled_payloads_lem fl held h bytes) (record {
        stack_size = omega (arith, length-junk_from cells 0 (n * 2));
        payload_size = omega (
          arith,
          length-append fl.payloads (uninitialised n),
          length-uninitialised A n,
          h.payload_size,
        );
        inside = omega (arith, h.inside);
        more = omega (arith, h.more);
        word = omega arith;
        entry = h.entry;
        bytes = rw double bytes;
        free_below = λ i p k. ground (arith, at i);
        is_free = λ i p k. ground (arith, at i, none_above fl held i h);
        distinct = λ i j p q k. ground (arith, at i, at j);
        counted = omega (arith, h.counted, h.inside);
        below = λ id v e. omega (arith, h.below id v e);
        stored = λ id v e.
            get_or-append fl.payloads (uninitialised n) id none
              (omega (arith, h.below id v e, h.payload_size))
            ∙ h.stored id v e;
      })

  -- The list that `fl_ready` leaves, doubled or as it was.
  ready_lem :
      (junk : ℕ → ℕ) (fl : FreeList A) (held : List (ℕ × A))
      → IsList fl held
      → fl.sp ≢ fl.id_limit
      → fl.capacity ≤ 1073741824
      → fl.capacity * 2 * fl.type_size < 4294967296
      → (r : FreeList A) × (ready junk fl ≡ some r) × IsList r held × (r.sp + 1 < r.capacity)
  unfolding ready
  ready_lem junk fl held h unlimited small bytes =
      let limit : (fl.sp == fl.id_limit) ≡ false = ground arith in
      let one : u32 (fl.sp + 1) ≡ fl.sp + 1 = omega (arith, h.inside, h.word) in
      let nonzero : (u32 (fl.capacity * 2) == 0) ≡ false = ground (arith, h.more) in
      rw (limit, one)
        (elim (Bool-cases (ltb (fl.sp + 1) fl.capacity)) [
          | inl y ↦ (fl, rw y, h, ground arith)
          | inr m ↦ (
            doubled junk fl,
            rw (m, nonzero),
            doubled-IsList junk fl held h small bytes,
            unfold doubled in omega (arith, h.more),
          )
        ])

  -- What `fl_insert` makes of a list: the id was free, it is the one that `fl_next_id` promises, and
  -- it is held from then on with its payload, while the others keep theirs.
  pub record Inserted (junk : ℕ → ℕ) (fl : FreeList A) (held : List (ℕ × A)) (v : A) (id : ℕ)
      (fl' : FreeList A) : Type 0 where
    pub returned : insert junk fl v ≡ some (id, fl')
    pub promised : (r : FreeList A) × (next_id junk fl ≡ some (id, r))
    pub was_free : lookup id held ≡ none
    pub valid : IsList fl' ((id, v) ∷ held)
    pub kept : get fl' id ≡ some v

  insert_ready :
      (junk : ℕ → ℕ) (fl r : FreeList A) (held : List (ℕ × A)) (v : A)
      → ready junk fl ≡ some r
      → IsList r held
      → r.sp + 1 < r.capacity
      → let id = cell r.stack (r.sp + 1) in
        Inserted junk fl held v id
          (record r { sp = r.sp + 1; payloads = set r.payloads id (some v) })
  unfolding insert next_id get
  insert_ready junk fl r held v e h room =
      let id = cell r.stack (r.sp + 1) in
      let next = take_id-IsList r held v h room in
      record {
        returned = rw e (
            ap (λ (q : FreeList A). some (id, record q { sp = r.sp + 1 }))
              (set_payload_lem r held id v h (h.free_below (r.sp + 1) (omega arith) room)));
        promised = (r, rw e);
        was_free = h.is_free (r.sp + 1) (omega arith) room;
        valid = next;
        kept =
            get_lem _ ((id, v) ∷ held) id next (next.below id v (ground arith))
            ∙ next.stored id v (ground arith);
      }

  -- `fl_insert` below the id limit, on a list of at most 2 ^ 30 cells that may have to double, where
  -- twice its payloads have fewer than 2 ^ 32 bytes: it succeeds with an id that nobody holds, the one that `fl_next_id` promises just before; the id is
  -- then held with its payload, the ids held before keep theirs, and the free ids stay distinct.
  pub insert_lem :
      (junk : ℕ → ℕ) (fl : FreeList A) (held : List (ℕ × A)) (v : A)
      → IsList fl held
      → fl.sp ≢ fl.id_limit
      → fl.capacity ≤ 1073741824
      → fl.capacity * 2 * fl.type_size < 4294967296
      → (id : ℕ) × (fl' : FreeList A) × Inserted junk fl held v id fl'
  insert_lem junk fl held v h unlimited small bytes =
      let (r, e, k, room) = ready_lem junk fl held h unlimited small bytes in
      (_, _, insert_ready junk fl r held v e k room)

  -- At the limit the server stops.
  pub insert_limit :
      (junk : ℕ → ℕ) (fl : FreeList A) (v : A) → fl.sp ≡ fl.id_limit → insert junk fl v ≡ none
  unfolding insert ready
  insert_limit junk fl v e = ground arith

  reused_id :
      (junk : ℕ → ℕ) (fl : FreeList A) (held : List (ℕ × A)) (id : ℕ)
      → IsList fl held
      → 0 < fl.sp
      → fl.sp ≤ fl.id_limit
      → next_id junk (release fl id).1 ≡ some (id, (release fl id).1)
  unfolding next_id ready release
  reused_id junk fl held id h used k =
      let one_less : sub32 fl.sp 1 ≡ fl.sp - 1 = omega (arith, h.inside, h.word) in
      let one_more : fl.sp - 1 + 1 ≡ fl.sp = omega arith in
      let word : u32 fl.sp ≡ fl.sp = omega (arith, h.inside, h.word) in
      let limit : (fl.sp - 1 == fl.id_limit) ≡ false = ground arith in
      let room : ltb fl.sp fl.capacity ≡ true = ground (arith, h.inside) in
      let top : cell (set fl.stack fl.sp id) fl.sp ≡ id =
        ground (arith, cell-set fl.stack fl.sp fl.sp id, h.stack_size, h.inside) in
      rw (one_less, limit, one_more, word, room, one_more, top)

  -- What `fl_release` makes of a list that held the id with the payload.
  pub record Released (junk : ℕ → ℕ) (fl : FreeList A) (held : List (ℕ × A)) (id : ℕ) (v : A)
      : Type 0 where
    pub payload : (release fl id).0 ≡ some v
    pub valid : IsList (release fl id).1 (erase id held)
    pub let_go : lookup id (erase id held) ≡ none
    pub others : (j : ℕ) → j ≢ id → lookup j (erase id held) ≡ lookup j held
    pub reused : fl.sp ≤ fl.id_limit → next_id junk (release fl id).1 ≡ some (id, (release fl id).1)

  -- `fl_release` of a held id: it returns the payload, the id is no longer held and all others are,
  -- the list stays valid, and within the id limit the next insertion takes this very id.
  pub release_lem :
      (junk : ℕ → ℕ) (fl : FreeList A) (held : List (ℕ × A)) (id : ℕ) (v : A)
      → IsList fl held
      → lookup id held ≡ some v
      → Released junk fl held id v
  release_lem junk fl held id v h e =
      let used : 0 < fl.sp = omega (arith, h.counted, length-erase id held e) in
      let one_less : sub32 fl.sp 1 ≡ fl.sp - 1 = omega (arith, h.inside, h.word) in
      record {
        payload = unfold release get in (get_lem fl held id h (h.below id v e) ∙ h.stored id v e);
        valid = release-IsList fl held id v h e;
        let_go = ground (arith, lookup-erase id id held);
        others = λ j n. ground (arith, lookup-erase id j held);
        reused = reused_id junk fl held id h used;
      }
