-- ===== src/Migrations/Frame/Effects.antt =====
-- The frame of each operation.
use hexagonal_auth_service.Base.{
  ◌≡◌, refl, true, false, some, List, [], ◌∷◌, ◌++◌, map, Text, text_eq, arith, Option-cases, inl,
  inr, ap,
}
use hexagonal_auth_service.Migrations.Catalog.{
  Constraint, foreign_key, primary_key, Index, Operation, create_table, drop_table, create_index,
  drop_index, add_column, drop_column, drop_constraint, create_foreign_key, Table, Catalog, any,
}
use hexagonal_auth_service.Migrations.Effect.{
  constraints_fit, refers_well, refers_to, has_index, new_table, is_reference, is_reference_to,
  without_index, effect, is_empty, needs_no_rows,
}
use hexagonal_auth_service.Migrations.Run.{surely, surely_all}
use hexagonal_auth_service.Migrations.Frame.{
  mentions, referents, names, Apart, AllApart, beside, any-none, without-none, without-append,
  any-apart, find_table-append, alter-append,
}

refers_to-apart : (name : Text) (t : Table) → mentions name t ≡ false → refers_to name t ≡ false
unfolding mentions refers_to
refers_to-apart name t h = ground arith

has_index-apart : (name : Text) (t : Table) → mentions name t ≡ false → has_index name t ≡ false
unfolding mentions
has_index-apart name t h = ground arith

is_named-apart : (name : Text) (t : Table) → mentions name t ≡ false → text_eq name t.name ≡ false
unfolding mentions
is_named-apart name t h = ground arith

is_reference_to-is_reference :
    (table column : Text) (k : Text × Constraint)
    → is_reference table k ≡ false
    → is_reference_to table column k ≡ false
unfolding is_reference is_reference_to
is_reference_to-is_reference table column (_, foreign_key _ _ _ _) h = ground arith
is_reference_to-is_reference table column (_, primary_key _) h = refl

is_reference_to-apart :
    (table column : Text) (t : Table)
    → mentions table t ≡ false
    → any (is_reference_to table column) t.constraints ≡ false
unfolding mentions
is_reference_to-apart table column t h =
    any-none (is_reference_to table column) (is_reference table)
      (is_reference_to-is_reference table column) t.constraints (ground arith)

refers_well-append :
    (c rest : Catalog) (name : Text) (k : Constraint) (ks : List (Text × Constraint))
    → Apart (referents ((name, k) ∷ ks)) rest
    → (refers_well (c ++ rest) k ≡ refers_well c k) × Apart (referents ks) rest
unfolding refers_well referents Apart
refers_well-append c rest name (foreign_key _ table _ _) ks h =
    (rw (find_table-append table c rest h.0, refers_well), h.1)
refers_well-append c rest name (primary_key _) ks h = (refl, h)

constraints_fit-append :
    (c rest : Catalog) (t : Table) (ks : List (Text × Constraint))
    → Apart (referents ks) rest
    → constraints_fit (c ++ rest) t ks ≡ constraints_fit c t ks
unfolding constraints_fit
constraints_fit-append c rest t [] h = refl
constraints_fit-append c rest t ((name, k) ∷ ks) h =
    let (e, apart) = refers_well-append c rest name k ks h in
    rw (e, constraints_fit-append c rest t ks apart) refl

map-without_index :
    (name : Text) (c rest : Catalog)
    → any (mentions name) rest ≡ false
    → map (without_index name) (c ++ rest) ≡ map (without_index name) c ++ rest
unfolding any mentions has_index without_index
map-without_index name [] [] h = refl
map-without_index name [] (t ∷ rest) h = ground (
  arith,
  map-without_index name [] rest,
  without-none (λ (x : Index). text_eq name x.name) t.indexes,
)
map-without_index name (t ∷ c) rest h =
    ap (λ r. without_index name t ∷ r) (map-without_index name c rest h)

-- The frame of an operation.
pub effect-append :
    (op : Operation) (c rest : Catalog)
    → Apart (names op) rest
    → effect op (c ++ rest) ≡ beside rest (effect op c)
unfolding effect names Apart
effect-append (create_table name columns constraints) c rest h =
    let t = new_table name columns constraints in
    rw (find_table-append name c rest h.0, constraints_fit-append (t ∷ c) rest t t.constraints h.1)
      (ground arith)
effect-append (drop_table name) c rest h =
    rw
      (
        find_table-append name c rest h.0,
        any-apart name rest h.0 (refers_to name) (refers_to-apart name) c,
        without-append (λ (t : Table). text_eq name t.name) c rest
            (any-none _ (mentions name) (is_named-apart name) rest h.0),
      )
      (ground arith)
effect-append (create_index name table columns unique) c rest h =
    rw
      (
        any-apart name rest h.0 (has_index name) (has_index-apart name) c,
        alter-append table _ c rest h.1.0,
      )
      (ground arith)
effect-append (drop_index name table) c rest h =
    rw
      (
        any-apart name rest h.0 (has_index name) (has_index-apart name) c,
        map-without_index name c rest h.0,
      )
      (ground arith)
effect-append (add_column table k) c rest h = alter-append table _ c rest h.0
effect-append (drop_column table name) c rest h =
    rw
      (
        any-apart table rest h.0 _ (is_reference_to-apart table name) c,
        alter-append table _ c rest h.0,
      )
      (ground arith)
effect-append (drop_constraint name table) c rest h = alter-append table _ c rest h.0
effect-append (create_foreign_key name table referent columns remote ondelete) c rest h =
    rw (find_table-append referent c rest h.1.0, refers_well, alter-append table _ c rest h.0)
      (ground arith)

needs_no_rows-append :
    (op : Operation) (c rest : Catalog)
    → Apart (names op) rest
    → needs_no_rows op (c ++ rest) ≡ needs_no_rows op c
unfolding needs_no_rows names Apart
needs_no_rows-append (create_index name table columns true) c rest h =
    rw (find_table-append table c rest h.1.0, is_empty)
needs_no_rows-append (create_index name table columns false) c rest h = refl
needs_no_rows-append (create_foreign_key _ table _ _ _ _) c rest h =
    rw (find_table-append table c rest h.0, is_empty)
needs_no_rows-append (create_table _ _ _) c rest h = refl
needs_no_rows-append (drop_table _) c rest h = refl
needs_no_rows-append (drop_index _ _) c rest h = refl
needs_no_rows-append (add_column _ _) c rest h = refl
needs_no_rows-append (drop_column _ _) c rest h = refl
needs_no_rows-append (drop_constraint _ _) c rest h = refl

surely-append :
    (op : Operation) (c rest : Catalog)
    → Apart (names op) rest
    → surely op (c ++ rest) ≡ beside rest (surely op c)
unfolding surely
surely-append op c rest h =
    ground (arith, effect-append op c rest h, needs_no_rows-append op c rest h)

pub surely_all-append :
    (ops : List Operation) (c rest : Catalog) {c' : Catalog}
    → AllApart ops rest
    → surely_all ops c ≡ some c'
    → surely_all ops (c ++ rest) ≡ some (c' ++ rest)
unfolding surely_all AllApart
surely_all-append [] c rest h e = ground arith
surely_all-append (op ∷ ops) c rest {c'} h e = elim (Option-cases (surely op c)) [
  | inl fails ↦ absurd (ground (arith, fails))
  | inr (d, returns) ↦ ground (
    arith,
    surely-append op c rest h.0,
    returns,
    surely_all-append ops d rest {c' = c'} h.1 (ground (arith, returns)),
  )
]
