-- ===== src/Hardware/Topology/Loading.antt =====
-- set_link in drigs/hardware/topology.py: which cells of the matrix it writes.
use drigs.Prelude.{
  String, ◌≡◌, refl, true, some, [], ◌∷◌, arith, ite, dec_text, Option-cases, inl, inr,
}
use drigs.Dict.{Dict, lookup, put, has, lookup-put}
use drigs.Hardware.Topology.{
  TopologyMatrix, matrix_value, ensure_row, set_cell, set_link, cell, load_rows, load_printed,
  load_values, load_raw_topology,
}

module _ (x y : String) where
  cell-ensure_row : (a : String) (m : TopologyMatrix) → cell x y (ensure_row a m) ≡ cell x y m
  unfolding lookup
  cell-ensure_row a m = ground (arith, lookup-put a x [] m)

  cell-set_cell :
      (a b l : String) (m : TopologyMatrix)
      → has a m ≡ true
      → cell x y (set_cell a b l m)
        ≡ ite (dec_text a x) (ite (dec_text b y) (some l) (cell x y m)) (cell x y m)
  cell-set_cell a b l m h = elim (Option-cases (lookup a m)) [
    | inl e ↦ ground (arith, h, e)
    | inr (row, e) ↦
        rw (set_cell, e) (ground (arith, e, lookup-put a x (put b l row) m, lookup-put b y l row))
  ]

has-ensure_row :
    (x a : String) (m : TopologyMatrix) → has x (ensure_row a m) ≡ ite (dec_text a x) true (has x m)
has-ensure_row x a m = ground (arith, lookup-put a x [] m)

has-set_cell : (x a b l : String) (m : TopologyMatrix) → has x (set_cell a b l m) ≡ has x m
has-set_cell x a b l m = elim (Option-cases (lookup a m)) [
  | inl e ↦ rw (set_cell, e) refl
  | inr (row, e) ↦ rw (set_cell, e) (ground (arith, e, lookup-put a x (put b l row) m))
]

-- A link is written in both directions, and nothing else is.
pub cell-set_link :
    (x y a b l : String) (m : TopologyMatrix)
    → cell x y (set_link a b l m)
      ≡ ite
          (dec_text b x)
          (ite
            (dec_text a y)
            (some l)
            (ite (dec_text a x) (ite (dec_text b y) (some l) (cell x y m)) (cell x y m)))
          (ite (dec_text a x) (ite (dec_text b y) (some l) (cell x y m)) (cell x y m))
unfolding set_link
cell-set_link x y a b l m = ground (
  arith,
  cell-set_cell x y b a l (set_cell a b l (ensure_row b (ensure_row a m))),
  cell-set_cell x y a b l (ensure_row b (ensure_row a m)),
  cell-ensure_row x y b (ensure_row a m),
  cell-ensure_row x y a m,
  has-set_cell b a b l (ensure_row b (ensure_row a m)),
  has-ensure_row b b (ensure_row a m),
  has-ensure_row a b (ensure_row a m),
  has-ensure_row a a m,
)

-- A matrix that comes under its key is loaded, whatever the device ids are.
pub load_wrapped :
    (str : Dict String → String) (rows : Dict (Dict String)) (m : TopologyMatrix)
    → load_raw_topology str (("topology_matrix", matrix_value rows) ∷ []) m ≡ load_rows rows m
unfolding load_raw_topology load_rows load_values load_printed lookup dec_text
load_wrapped str [] m = refl
load_wrapped str (r ∷ rows) m = refl
