-- ===== src/Postgres/Client/Columns.antt =====
-- GetTableColumns (pkg/postgres/client.go). A row of pgx and its Scan into four strings are
-- parameters, as is the error that the rows end with.
use gochoreo.Common.{
  ◌≡◌, Bool, not, Option, none, some, List, [], ◌∷◌, ◌++◌, ◌⊎◌, inl, inr, if◌then◌else◌, is_empty,
  map, ap, sym, ◌∙◌, All,
}
use mathlib.Core.List.{append_assoc, append-nil}
use gochoreo.Text.{Text, codes, text_eq}
use gochoreo.Postgres.Errors.{PgError}
use gochoreo.Postgres.Client.{Client, Answer, query}

pub record ColumnInfo : Type 0 where
  pub name : Text
  pub data_type : Text
  pub is_nullable : Bool
  pub default : Option Text

-- The four strings that Scan fills.
pub record Scanned : Type 0 where
  pub name : Text
  pub data_type : Text
  pub nullable : Text
  pub default_val : Text

unfoldable pub column_of : Scanned → ColumnInfo
column_of s = record {
  name = s.name;
  data_type = s.data_type;
  is_nullable = text_eq s.nullable (codes "YES");
  default = if not (is_empty s.default_val) then some s.default_val else none;
}

module _ {Row : Type 0} (scan : Row → PgError ⊎ Scanned) where
  -- The loop over the rows.
  unfoldable pub collect : List Row → List ColumnInfo → PgError ⊎ List ColumnInfo
  collect [] columns = inr columns
  collect (row ∷ rows) columns = elim (scan row) [
    | inl err ↦ inl err
    | inr s ↦ collect rows (columns ++ column_of s ∷ [])
  ]

  -- The columns, and the error that comes back with them; an error of Scan gives no columns.
  unfoldable pub get_table_columns :
      Text
      → Answer
      → List Row
      → Option PgError
      → Client
      → (List ColumnInfo × Option PgError) × Client
  get_table_columns text a rows rows_err c =
      let (err, c') = query text a c in
      elim err [
        | some e ↦ (([], some e), c')
        | none ↦ elim (collect rows []) [
          | inl e ↦ (([], some e), c')
          | inr columns ↦ ((columns, rows_err), c')
        ]
      ]

  collect_from :
      (rows : List Row) (scanned : Row → Scanned) (columns : List ColumnInfo)
      → All (λ row. scan row ≡ inr (scanned row)) rows
      → collect rows columns ≡ inr (columns ++ map (λ row. column_of (scanned row)) rows)
  unfolding collect
  collect_from [] scanned columns h = ap inr (sym (append-nil columns))
  collect_from (row ∷ rows) scanned columns h =
      rw (collect, h.0)
        (collect_from rows scanned (columns ++ column_of (scanned row) ∷ []) h.1
          ∙ ap inr (
              append_assoc columns (column_of (scanned row) ∷ [])
                (map (λ row. column_of (scanned row)) rows)))

  -- Rows that can all be scanned are returned as columns, in their order.
  pub collect_lem :
      (rows : List Row) (scanned : Row → Scanned)
      → All (λ row. scan row ≡ inr (scanned row)) rows
      → collect rows [] ≡ inr (map (λ row. column_of (scanned row)) rows)
  collect_lem rows scanned h = collect_from rows scanned [] h
