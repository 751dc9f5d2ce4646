-- ===== src/Hardware/Simulated/Links.antt =====
-- get_topology in drigs/hardware/simulated.py, as the matrix of drigs/hardware/topology.py reads it.
use drigs.Prelude.{
  String, ◌≡◌, ◌≢◌, refl, sym, ap, subst, ◌∙◌, true, Option, none, some, List, [], ◌∷◌, arith, ite,
  dec_text, texts_differ, contains, if◌then◌else◌, if_pos, if_neg, Bool-cases, inl, inr,
}
use drigs.Dict.{Dict, has, keys, contains-keys}
use drigs.Hardware.Topology.{
  TopologyMatrix, InterconnectLinkType, get_link_type, cell, parse_link, set_link, load_row,
  load_rows, load_raw_topology,
}
use drigs.Hardware.Topology.Loading.{cell-set_link, load_wrapped}
use drigs.Hardware.Topology.InterconnectLinkType.{self, nvlink, pcie}
use drigs.Hardware.Simulated.{
  SimulatedBackend, group_of, same_group, link, row_of, rows_of, topology_matrix, get_topology,
}

get_link_type-self : (x y : String) (m : TopologyMatrix) → x ≡ y → get_link_type x y m ≡ self
unfolding get_link_type
get_link_type-self x y m p = if_pos (dec_text x y) p _ _

get_link_type-raw :
    (x y raw : String) (m : TopologyMatrix)
    → x ≢ y
    → cell x y m ≡ some raw
    → raw ≢ ""
    → get_link_type x y m ≡ parse_link raw
unfolding get_link_type
get_link_type-raw x y raw m n c e = ground (arith, n, c, e)

parsed : (parse_link "NVLINK" ≡ nvlink) × (parse_link "PCIE" ≡ pcie)
unfolding parse_link dec_text
parsed = (refl, refl)

module _ (b : SimulatedBackend) where
  -- What the links between two devices ought to be.
  unfoldable pub expected_link : String → String → InterconnectLinkType
  expected_link x y =
      ite (dec_text x y) self (if same_group (group_of x b) (group_of y b) then nvlink else pcie)

  same_group_sym : (o p : Option String) → same_group o p ≡ same_group p o
  same_group_sym none none = refl
  same_group_sym none (some s) = refl
  same_group_sym (some s) none = refl
  same_group_sym (some s) (some u) = ground arith

  link-apart :
      (x y : String)
      → x ≢ y
      → link b x y ≡ (if same_group (group_of x b) (group_of y b) then "NVLINK" else "PCIE")
  unfolding link
  link-apart x y n = if_neg (dec_text x y) n _ _

  link_sym : (x y : String) → link b x y ≡ link b y x
  unfolding link
  link_sym x y = ground (arith, same_group_sym (group_of x b) (group_of y b))

  -- How a matrix is read that has the machine's link.
  read :
      (x y : String) (m : TopologyMatrix)
      → cell x y m ≡ some (link b x y)
      → get_link_type x y m ≡ expected_link x y
  unfolding expected_link
  read x y m c = elim (dec_text x y) [
    | yes p ↦ get_link_type-self x y m p ∙ sym (if_pos (dec_text x y) p _ _)
    | no n ↦
        let apart =
          if_neg (dec_text x y) n self
            (if same_group (group_of x b) (group_of y b) then nvlink else pcie) in
        elim (Bool-cases (same_group (group_of x b) (group_of y b))) [
          | inl g ↦
              let l : link b x y ≡ "NVLINK" = link-apart x y n ∙ rw g refl in
              get_link_type-raw x y "NVLINK" m n (c ∙ ap some l) (texts_differ "NVLINK" "" refl)
              ∙ parsed.0
              ∙ sym (apart ∙ rw g refl)
          | inr g ↦
              let l : link b x y ≡ "PCIE" = link-apart x y n ∙ rw g refl in
              get_link_type-raw x y "PCIE" m n (c ∙ ap some l) (texts_differ "PCIE" "" refl)
              ∙ parsed.1
              ∙ sym (apart ∙ rw g refl)
        ]
  ]

  module _ (x y : String) where
    -- Once the link of x and y is in the matrix, the machine's other links leave it.
    keeps_link :
        (a c : String) (m : TopologyMatrix)
        → cell x y m ≡ some (link b x y)
        → cell x y (set_link a c (link b a c) m) ≡ some (link b x y)
    keeps_link a c m h = ground (arith, h, cell-set_link x y a c (link b a c) m, link_sym x y)

    keeps_row :
        (a : String) (ids : List String) (m : TopologyMatrix)
        → cell x y m ≡ some (link b x y)
        → cell x y (load_row a (row_of b a ids) m) ≡ some (link b x y)
    unfolding load_row row_of
    keeps_row a [] m h = h
    keeps_row a (c ∷ ids) m h = keeps_row a ids (set_link a c (link b a c) m) (keeps_link a c m h)

    keeps_rows :
        (ids more : List String) (m : TopologyMatrix)
        → cell x y m ≡ some (link b x y)
        → cell x y (load_rows (rows_of b ids more) m) ≡ some (link b x y)
    unfolding load_rows rows_of
    keeps_rows ids [] m h = h
    keeps_rows ids (a ∷ more) m h =
        keeps_rows ids more (load_row a (row_of b a ids) m) (keeps_row a ids m h)

    loads_row :
        (ids : List String) (m : TopologyMatrix)
        → contains ids y ≡ true
        → cell x y (load_row x (row_of b x ids) m) ≡ some (link b x y)
    unfolding load_row row_of contains
    loads_row [] m h = cc
    loads_row (c ∷ ids) m h = elim (dec_text c y) [
      | yes p ↦
          keeps_row x ids (set_link x c (link b x c) m)
            (ground (arith, p, cell-set_link x y x c (link b x c) m))
      | no n ↦ loads_row ids (set_link x c (link b x c) m) (ground (arith, h, n))
    ]

    loads_rows :
        (ids more : List String) (m : TopologyMatrix)
        → contains ids y ≡ true
        → contains more x ≡ true
        → cell x y (load_rows (rows_of b ids more) m) ≡ some (link b x y)
    unfolding load_rows rows_of contains
    loads_rows ids [] m hy hx = cc
    loads_rows ids (a ∷ more) m hy hx = elim (dec_text a x) [
      | yes p ↦ keeps_rows ids more (load_row a (row_of b a ids) m) (
          subst (λ z. cell x y (load_row z (row_of b z ids) m) ≡ some (link b x y)) (sym p)
            (loads_row ids m hy))
      | no n ↦ loads_rows ids more (load_row a (row_of b a ids) m) hy (ground (arith, hx, n))
    ]

  module _ (str : Dict String → String) (m : TopologyMatrix) where
    cell-loaded :
        (x y : String)
        → has x b.devices ≡ true
        → has y b.devices ≡ true
        → cell x y (load_raw_topology str (get_topology b) m) ≡ some (link b x y)
    unfolding get_topology topology_matrix
    cell-loaded x y hx hy =
        let ids = keys b.devices in
        ap (cell x y) (load_wrapped str (topology_matrix b) m)
        ∙ loads_rows x y ids ids m (contains-keys y b.devices ∙ hy) (contains-keys x b.devices ∙ hx)

    -- After the graph has loaded what the simulated machine gives for its topology, whatever links
    -- it had before, it reads for any two of the machine's devices SELF for a device and itself,
    -- NVLINK for two devices of one group, and PCIE for any others, the same in both directions.
    pub get_link_type-get_topology :
        (x y : String)
        → has x b.devices ≡ true
        → has y b.devices ≡ true
        → let loaded = load_raw_topology str (get_topology b) m in
          (get_link_type x y loaded ≡ expected_link x y)
          × (get_link_type x y loaded ≡ get_link_type y x loaded)
    unfolding expected_link
    get_link_type-get_topology x y hx hy =
        let loaded = load_raw_topology str (get_topology b) m in
        let there = read x y loaded (cell-loaded x y hx hy) in
        let back = read y x loaded (cell-loaded y x hy hx) in
        (there, there ∙ ground (arith, same_group_sym (group_of x b) (group_of y b)) ∙ sym back)
