-- ===== src/Migrations/Frame.antt =====
-- Operations and the tables of others: what an operation does to the tables that it names is the
-- same beside any tables that do not mention those names.
pub mod Effects
use mathlib.Core.Option
use hexagonal_auth_service.Base.{
  ℕ, ◌≡◌, refl, Bool, true, false, not, ◌&&◌, ◌||◌, Option, none, some, List, [], ◌∷◌, ◌++◌, map,
  Text, text_eq, ltb, ◌==◌, is_some, if◌then◌else◌, arith, Bool-cases, inl, inr,
}
use hexagonal_auth_service.Migrations.Catalog.{
  Column, Constraint, foreign_key, primary_key, Index, Operation, create_table, drop_table,
  create_index, drop_index, add_column, drop_column, drop_constraint, create_foreign_key, Table,
  Catalog, put, put_all, any, without, is_among, find_table,
}
use hexagonal_auth_service.Migrations.Effect.{
  constraints_fit, refers_well, refers_to, has_index, has_columns, columns_of, alter, new_table,
  is_reference, is_reference_to, with_index, without_index, with_column, without_column,
  with_constraint, without_constraint, effect, is_empty, needs_no_rows,
}
use hexagonal_auth_service.Migrations.Run.{surely, surely_all}

-- A table has the name, or an index of the name, or a foreign key to a table of the name.
unfoldable pub mentions : Text → Table → Bool
unfolding text_eq has_index any is_reference
mentions name t = text_eq name t.name || (has_index name t || any (is_reference name) t.constraints)

unfoldable pub referents : List (Text × Constraint) → List Text
referents [] = []
referents ((_, foreign_key _ table _ _) ∷ ks) = table ∷ referents ks
referents ((_, primary_key _) ∷ ks) = referents ks

-- the names of tables and indexes by which an operation goes
unfoldable pub names : Operation → List Text
unfolding referents new_table
names (create_table name columns constraints) =
    name ∷ referents (new_table name columns constraints).constraints
names (drop_table name) = name ∷ []
names (create_index name table _ _) = name ∷ table ∷ []
names (drop_index name _) = name ∷ []
names (add_column table _) = table ∷ []
names (drop_column table _) = table ∷ []
names (drop_constraint _ table) = table ∷ []
names (create_foreign_key _ table referent _ _ _) = table ∷ referent ∷ []

-- None of the tables mentions one of the names.
unfoldable pub Apart : List Text → Catalog → Type 0
Apart [] rest = Unit
Apart (name ∷ ns) rest = (any (mentions name) rest ≡ false) × Apart ns rest

unfoldable pub AllApart : List Operation → Catalog → Type 0
unfolding Apart names
AllApart [] rest = Unit
AllApart (op ∷ ops) rest = Apart (names op) rest × AllApart ops rest

-- a catalog with the other tables
abbrev pub beside : Catalog → Option Catalog → Option Catalog
beside rest = Option.map (λ (c : Catalog). c ++ rest)

module _ {A : Type 0} where
  pub any-append : (p : A → Bool) (xs ys : List A) → any p ys ≡ false → any p (xs ++ ys) ≡ any p xs
  unfolding any
  any-append p [] ys h = h
  any-append p (x ∷ xs) ys h = ground (arith, any-append p xs ys)

  pub any-none :
      (p q : A → Bool)
      → ((x : A) → q x ≡ false → p x ≡ false)
      → (xs : List A) → any q xs ≡ false
      → any p xs ≡ false
  unfolding any
  any-none p q f [] h = refl
  any-none p q f (x ∷ xs) h = ground (arith, f x, any-none p q f xs)

  pub without-none : (p : A → Bool) (xs : List A) → any p xs ≡ false → without p xs ≡ xs
  unfolding any without
  without-none p [] h = refl
  without-none p (x ∷ xs) h = ground (arith, without-none p xs)

  pub without-append :
      (p : A → Bool) (xs ys : List A) → any p ys ≡ false → without p (xs ++ ys) ≡ without p xs ++ ys
  unfolding without
  without-append p [] ys h = without-none p ys h
  without-append p (x ∷ xs) ys h = ground (arith, without-append p xs ys)

module _ (name : Text) (rest : Catalog) (apart : any (mentions name) rest ≡ false) where
  pub any-apart :
      (p : Table → Bool)
      → ((t : Table) → mentions name t ≡ false → p t ≡ false)
      → (c : Catalog) → any p (c ++ rest) ≡ any p c
  any-apart p f c = any-append p c rest (any-none p (mentions name) f rest apart)

pub find_table-none :
    (name : Text) (rest : Catalog) → any (mentions name) rest ≡ false → find_table name rest ≡ none
unfolding find_table any mentions
find_table-none name [] h = refl
find_table-none name (t ∷ rest) h = ground (arith, find_table-none name rest)

pub find_table-append :
    (name : Text) (c rest : Catalog)
    → any (mentions name) rest ≡ false
    → find_table name (c ++ rest) ≡ find_table name c
unfolding find_table
find_table-append name [] rest h = find_table-none name rest h
find_table-append name (t ∷ c) rest h = ground (arith, find_table-append name c rest)

pub alter-none :
    (name : Text) (f : Table → Option Table) (rest : Catalog)
    → any (mentions name) rest ≡ false
    → alter name f rest ≡ none
unfolding alter any mentions
alter-none name f [] h = refl
alter-none name f (t ∷ rest) h = ground (arith, alter-none name f rest)

pub alter-append :
    (name : Text) (f : Table → Option Table) (c rest : Catalog)
    → any (mentions name) rest ≡ false
    → alter name f (c ++ rest) ≡ beside rest (alter name f c)
unfolding alter
alter-append name f [] rest h = alter-none name f rest h
alter-append name f (t ∷ c) rest h = ground (arith, alter-append name f c rest)
