-- ===== src/Bdd/Serialize.antt =====
-- bdd_deserialize of hw1/src/bdd.c reads back what bdd_serialize wrote.
use mathlib.Core.List.{append_assoc, append-nil}
use cse320_spring.Base.{
  ℕ, zero, suc, ◌+◌, ◌%◌, ◌≤◌, ◌<◌, ◌≡◌, ◌≢◌, refl, sym, ap, ◌∙◌, inl, inr, some, [], ◌∷◌, ◌++◌,
  arith, ==-eq-false, eq_cases,
}
use cse320_spring.Base.Text.{Bytes}
use cse320_spring.Bdd.Store.{Store, returned, num_leaves, nodes_max, update}
use cse320_spring.Bdd.Invariant.{IsValid}
use cse320_spring.Bdd.Insert.{update_eq, update_ne}
use cse320_spring.Bdd.Denote.{IsInner-of_level, leaf_of_level}
use cse320_spring.Bdd.Serial.{
  Writer, le32, write_record, bdd_serialize_helper, bdd_serialize, IndexMap, bdd_deserialize,
}
use cse320_spring.Bdd.Numbering.{written, written-le, written-update, written_none}
use cse320_spring.Bdd.Reading.{read_leaf_lem, read_node_lem}

module _ (s : Store) (v : IsValid s) (room : s.next < nodes_max) (start : IndexMap) where
  -- After `serial` records the reader has the map, and each node with a serial number stands there.
  record Follows (w : Writer) (map : IndexMap) (serial : ℕ) : Type 0 where
    counter : w.counter ≡ suc serial
    counted : serial ≡ written s.next w.index_map
    entries :
        (j : ℕ)
        → j < s.next
        → w.index_map j ≢ 0
        → (map (w.index_map j) ≡ some j) × (w.index_map j ≤ serial)
    reads :
        (total fuel : ℕ) (rest : Bytes)
        → total ≡ serial + fuel
        → bdd_deserialize total start 0 (w.out ++ rest) s ≡ bdd_deserialize fuel map serial rest s

  write_record-Follows :
      (w : Writer) (map : IndexMap) (serial j : ℕ) (bytes : Bytes)
      → Follows w map serial
      → j < s.next
      → w.index_map j ≡ 0
      → ((fuel : ℕ) (rest : Bytes)
          → bdd_deserialize (suc fuel) map serial (bytes ++ rest) s
            ≡ bdd_deserialize fuel (update map (suc serial) (some j)) (suc serial) rest s)
      → Follows (write_record j bytes w) (update map (suc serial) (some j)) (suc serial)
  unfolding write_record
  write_record-Follows w map serial j bytes f hj new read = record {
    counter = omega (arith, f.counter);
    counted =
        ap suc f.counted
        ∙ sym (written-update s.next j serial w.index_map hj new)
        ∙ ap (λ c. written s.next (update w.index_map j c)) (sym f.counter);
    entries = λ k hk ne. elim (eq_cases k j) [
      | inl e ↦
          let at : update w.index_map j w.counter k ≡ suc serial =
            update_eq w.index_map j w.counter k e ∙ f.counter in
          rw (at)
            (update_eq map (suc serial) (some j) (suc serial) refl ∙ ap some (sym e), omega arith)
      | inr other ↦
          let at = update_ne w.index_map j w.counter k other in
          let (x, y) = f.entries k hk (λ z. ne (at ∙ z)) in
          rw (at)
            (update_ne map (suc serial) (some j) (w.index_map k) (omega arith) ∙ x, omega arith)
    ];
    reads = λ total fuel rest e.
        ap (λ b. bdd_deserialize total start 0 b s) (append_assoc w.out bytes rest)
        ∙ f.reads total (suc fuel) (bytes ++ rest) (omega arith)
        ∙ read fuel rest;
  }

  -- What a call of bdd_serialize_helper for the node `i` leaves.
  record Wrote (i : ℕ) (w w' : Writer) (map : IndexMap) (serial : ℕ) : Type 0 where
    follows : Follows w' map serial
    numbered : w'.index_map i ≢ 0
    kept : (j : ℕ) → w.index_map j ≢ 0 → w'.index_map j ≡ w.index_map j
    above : (j : ℕ) → (s.nodes i).level ≤ (s.nodes j).level → j ≢ i → w'.index_map j ≡ w.index_map j
    last : w.index_map i ≡ 0 → w'.index_map i ≡ serial

  Wrote-same :
      (i : ℕ) (w : Writer) (map : IndexMap) (serial : ℕ)
      → Follows w map serial
      → w.index_map i ≢ 0
      → Wrote i w w map serial
  Wrote-same i w map serial f h = record {
    follows = f;
    numbered = h;
    kept = λ j e. refl;
    above = λ j l e. refl;
    last = λ e. absurd (h e);
  }

  -- A record was written for `i`, after calls that kept what `w` has above it.
  Wrote-record :
      (i : ℕ) (w w₁ : Writer) (bytes : Bytes) (map : IndexMap) (serial : ℕ)
      → Follows (write_record i bytes w₁) map (suc serial)
      → w₁.index_map i ≡ 0
      → ((j : ℕ) → w.index_map j ≢ 0 → w₁.index_map j ≡ w.index_map j)
      → ((j : ℕ) → (s.nodes i).level ≤ (s.nodes j).level → j ≢ i → w₁.index_map j ≡ w.index_map j)
      → Wrote i w (write_record i bytes w₁) map (suc serial)
  unfolding write_record
  Wrote-record i w w₁ bytes map serial f new kept above =
      let at = update_eq w₁.index_map i w₁.counter i refl in
      record {
        follows = f;
        numbered = λ z. absurd (omega (arith, f.counter, sym at ∙ z));
        kept = λ j e.
            update_ne w₁.index_map i w₁.counter j
              (λ k. e (sym (kept j e) ∙ ap w₁.index_map k ∙ new))
            ∙ kept j e;
        above = λ j l e. update_ne w₁.index_map i w₁.counter j e ∙ above j l e;
        last = λ e. at ∙ omega (arith, f.counter);
      }

  abbrev Writes : ℕ → ℕ → Writer → Type 0
  Writes fuel i w =
      (w' : Writer) × (map : IndexMap) × (serial : ℕ) × (bdd_serialize_helper fuel s.nodes i w
        ≡ some w')
      × Wrote i w w' map serial

  serial-room :
      (w : Writer) (map : IndexMap) (serial j : ℕ)
      → Follows w map serial
      → j < s.next
      → w.index_map j ≡ 0
      → suc serial < nodes_max
  serial-room w map serial j f hj new = omega (
    arith,
    f.counted,
    written-update s.next j serial w.index_map hj new,
    written-le s.next (update w.index_map j (suc serial)),
  )

  helper_leaf :
      (fuel i : ℕ) (w : Writer) (map : IndexMap) (serial : ℕ)
      → i < s.next
      → (s.nodes i).level ≡ 0
      → Follows w map serial
      → Writes (suc fuel) i w
  unfolding bdd_serialize_helper
  helper_leaf fuel i w map serial hi leaf f = elim (eq_cases (w.index_map i) 0) [
    | inr old ↦ (
      w,
      map,
      serial,
      rw (leaf, ==-eq-false (w.index_map i) 0 old),
      Wrote-same i w map serial f old,
    )
    | inl new ↦
        let bytes = 64 ∷ i % 256 ∷ [] in
        (
          write_record i bytes w,
          update map (suc serial) (some i),
          suc serial,
          rw (leaf, new),
          Wrote-record i w w bytes (update map (suc serial) (some i)) serial
              (write_record-Follows w map serial i bytes f hi new (λ fuel' rest.
                read_leaf_lem s map serial fuel' rest (serial-room w map serial i f hi new) i
                  (leaf_of_level s v i (hi, omega (arith, leaf)))))
              new (λ j e. refl) (λ j l e. refl),
        )
  ]

  record_of : ℕ → Writer → Bytes
  record_of i w =
      (64 + (s.nodes i).level) % 256
      ∷ (le32 (w.index_map (s.nodes i).left) ++ le32 (w.index_map (s.nodes i).right))

  -- The record of a node whose children have serial numbers.
  node-Follows :
      (i : ℕ) (w : Writer) (map : IndexMap) (serial : ℕ)
      → num_leaves ≤ i
      → i < s.next
      → Follows w map serial
      → w.index_map i ≡ 0
      → w.index_map (s.nodes i).left ≢ 0
      → w.index_map (s.nodes i).right ≢ 0
      → Follows (write_record i (record_of i w) w) (update map (suc serial) (some i)) (suc serial)
  unfolding record_of
  node-Follows i w map serial low hi f new l r =
      let n = v.inner i low hi in
      let (x, x') = f.entries (s.nodes i).left n.left_in l in
      let (y, y') = f.entries (s.nodes i).right n.right_in r in
      let more = serial-room w map serial i f hi new in
      write_record-Follows w map serial i (record_of i w) f hi new (λ fuel rest.
        ap (λ b. bdd_deserialize (suc fuel) map serial ((64 + (s.nodes i).level) % 256 ∷ b) s)
          (append_assoc (le32 (w.index_map (s.nodes i).left)) (le32 (w.index_map (s.nodes i).right))
            rest)
        ∙ read_node_lem s v map serial fuel rest more i (w.index_map (s.nodes i).left)
            (w.index_map (s.nodes i).right) low hi (omega arith) (omega arith) x y)

  helper_node :
      (fuel i : ℕ) (w w₁ w₂ : Writer) (map₁ map : IndexMap) (serial₁ serial : ℕ)
      → i < s.next
      → 0 < (s.nodes i).level
      → bdd_serialize_helper fuel s.nodes (s.nodes i).left w ≡ some w₁
      → Wrote (s.nodes i).left w w₁ map₁ serial₁
      → bdd_serialize_helper fuel s.nodes (s.nodes i).right w₁ ≡ some w₂
      → Wrote (s.nodes i).right w₁ w₂ map serial
      → Writes (suc fuel) i w
  unfolding bdd_serialize_helper record_of
  helper_node fuel i w w₁ w₂ map₁ map serial₁ serial hi pos run₁ a run₂ b =
      let (low, n) = IsInner-of_level s v i hi pos in
      let kept =
        λ (j : ℕ) (e : w.index_map j ≢ 0). b.kept j (λ z. e (sym (a.kept j e) ∙ z)) ∙ a.kept j e in
      let above = λ (j : ℕ) (l : (s.nodes i).level ≤ (s.nodes j).level).
        b.above j (omega (arith, n.right_below))
          (λ k. absurd (omega (arith, ap (λ x. (s.nodes x).level) k, n.right_below)))
        ∙ a.above j (omega (arith, n.left_below))
            (λ k. absurd (omega (arith, ap (λ x. (s.nodes x).level) k, n.left_below))) in
      let nonleaf = ==-eq-false (s.nodes i).level 0 (omega arith) in
      let left : w₂.index_map (s.nodes i).left ≢ 0 =
        λ z. a.numbered (sym (b.kept (s.nodes i).left a.numbered) ∙ z) in
      elim (eq_cases (w₂.index_map i) 0) [
        | inl new ↦ (
          write_record i (record_of i w₂) w₂,
          update map (suc serial) (some i),
          suc serial,
          rw (nonleaf, run₁, run₂, new),
          Wrote-record i w w₂ (record_of i w₂) (update map (suc serial) (some i)) serial
              (node-Follows i w₂ map serial low hi b.follows new left b.numbered) new kept
              (λ j l e. above j l),
        )
        | inr old ↦ (
          w₂,
          map,
          serial,
          rw (nonleaf, run₁, run₂, ==-eq-false (w₂.index_map i) 0 old),
          record {
            follows = b.follows;
            numbered = old;
            kept = kept;
            above = λ j l e. above j l;
            last = λ e. absurd (old (above i (omega arith) ∙ e));
          },
        )
      ]

  -- A call for a node, with fuel for its levels and one more.
  helper-Writes :
      (fuel i : ℕ) (w : Writer) (map : IndexMap) (serial : ℕ)
      → i < s.next
      → (s.nodes i).level < fuel
      → Follows w map serial
      → Writes fuel i w
  helper-Writes zero i w map serial hi h f = absurd (omega arith)
  helper-Writes (suc fuel) i w map serial hi h f = elim (eq_cases (s.nodes i).level 0) [
    | inl leaf ↦ helper_leaf fuel i w map serial hi leaf f
    | inr inside ↦
        let (low, n) = IsInner-of_level s v i hi (omega arith) in
        let (w₁, map₁, serial₁, run₁, a) =
          helper-Writes fuel (s.nodes i).left w map serial n.left_in (omega (arith, n.left_below))
            f in
        let (w₂, map₂, serial₂, run₂, b) =
          helper-Writes fuel (s.nodes i).right w₁ map₁ serial₁ n.right_in
            (omega (arith, n.right_below)) a.follows in
        helper_node fuel i w w₁ w₂ map₁ map₂ serial₁ serial₂ hi (omega arith) run₁ a run₂ b
  ]

  at_end :
      (map : IndexMap) (serial : ℕ)
      → bdd_deserialize 1 map serial [] s ≡ returned (some (map serial)) s
  unfolding bdd_deserialize
  at_end map serial = refl

  blank-Follows : Follows (record { index_map = λ j. 0; counter = 1; out = [] }) start 0
  blank-Follows = record {
    counter = refl;
    counted = sym (written_none s.next);
    entries = λ j hj ne. absurd (ne refl);
    reads = λ total fuel rest e. ap (λ n. bdd_deserialize n start 0 rest s) (e ∙ omega arith);
  }

  -- In a well-formed store whose node table is not full, bdd_serialize ends for a node within as many
  -- nested calls as it has levels and one more, and bdd_deserialize of the file, with a round for each
  -- record and one more, gives the same node and leaves the store as it is, whatever stood in
  -- bdd_index_map.
  pub bdd_deserialize-bdd_serialize :
      (fuel i : ℕ)
      → i < s.next
      → (s.nodes i).level < fuel
      → (w : Writer) × (bdd_serialize fuel s.nodes i ≡ some w)
        × (bdd_deserialize w.counter start 0 w.out s ≡ returned (some (some i)) s)
  unfolding bdd_serialize
  bdd_deserialize-bdd_serialize fuel i hi h =
      let (w, map, serial, run, a) =
        helper-Writes fuel i (record { index_map = λ j. 0; counter = 1; out = [] }) start 0 hi h
          blank-Follows in
      let f = a.follows in
      (
        w,
        run,
        ap (λ b. bdd_deserialize w.counter start 0 b s) (sym (append-nil w.out))
            ∙ f.reads w.counter 1 [] (omega (arith, f.counter))
            ∙ at_end map serial
            ∙ ap (λ x. returned (some x) s)
                (ap map (sym (a.last refl)) ∙ (f.entries i hi a.numbered).0),
      )
