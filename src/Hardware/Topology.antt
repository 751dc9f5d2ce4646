-- ===== src/Hardware/Topology.antt =====
-- drigs/hardware/topology.py: the link matrix, the graph over a worker's devices, and the choice of
-- the best connected group.
pub mod Clique
pub mod Loading
use Prim.Native.Char.{code}
use drigs.Prelude.{
  ℕ, zero, suc, ◌≤◌, String, ◌≡◌, Bool, true, false, not, ◌&&◌, Option, none, some, List, [], ◌∷◌,
  ◌++◌, map, ite, ltb, leb, ◌==◌, length, dec_text, if◌then◌else◌,
}
use drigs.Prelude.Int.{ℤ, ℤ-discrete}
use drigs.Dict.{Dict, lookup, put, has}
use drigs.Models.{ComputeDevice}
use drigs.Float.{Float}

pub data InterconnectLinkType : Type 0 where
  self nvlink pcie_switch pcie numa network unknown : InterconnectLinkType

-- The enumeration's values.
abbrev pub value : InterconnectLinkType → String
value self = "SELF"
value nvlink = "NVLINK"
value pcie_switch = "PCIE_SWITCH"
value pcie = "PCIE"
value numa = "NUMA"
value network = "NETWORK"
value unknown = "UNKNOWN"

-- LINK_TYPE_SCORES
abbrev pub link_type_score : InterconnectLinkType → ℕ
link_type_score self = 100
link_type_score nvlink = 90
link_type_score pcie_switch = 70
link_type_score pcie = 50
link_type_score numa = 30
link_type_score network = 10
link_type_score unknown = 0

abbrev pub TopologyMatrix : Type 0
TopologyMatrix = Dict (Dict String)

abbrev pub ensure_row : String → TopologyMatrix → TopologyMatrix
ensure_row a m = if has a m then m else put a [] m

-- self._matrix[a][b] = l
abbrev pub set_cell : String → String → String → TopologyMatrix → TopologyMatrix
set_cell a b l m = elim (lookup a m) [ none ↦ m | some row ↦ put a (put b l row) m ]

unfoldable pub set_link : String → String → String → TopologyMatrix → TopologyMatrix
set_link a b l m = set_cell b a l (set_cell a b l (ensure_row b (ensure_row a m)))

-- self._matrix.get(a, {}).get(b)
abbrev pub cell : String → String → TopologyMatrix → Option String
cell a b m = elim (lookup a m) [ none ↦ none | some row ↦ lookup b row ]

-- `x or y` on texts that may be missing
abbrev or_else : Option String → Option String → Option String
or_else none y = y
or_else (some s) y = ite (dec_text s "") y (some s)

-- InterconnectLinkType(raw), where an unknown text is the UNKNOWN link
unfoldable pub parse_link : String → InterconnectLinkType
parse_link raw = ite (dec_text raw "SELF") self (
    ite (dec_text raw "NVLINK") nvlink (
      ite (dec_text raw "PCIE_SWITCH") pcie_switch (
        ite (dec_text raw "PCIE") pcie
          (ite (dec_text raw "NUMA") numa (ite (dec_text raw "NETWORK") network unknown)))))

unfoldable pub get_link_type : String → String → TopologyMatrix → InterconnectLinkType
unfolding parse_link
get_link_type a b m = ite (dec_text a b) self (elim (or_else (cell a b m) (cell b a m)) [
  | none ↦ unknown
  | some raw ↦ ite (dec_text raw "") unknown (parse_link raw)
])

-- itertools.combinations(xs, k), in its order
unfoldable pub combinations {ℓ} : {A : Type ℓ} → ℕ → List A → List (List A)
combinations zero xs = [] ∷ []
combinations (suc k) [] = []
combinations (suc k) (x ∷ xs) = map (◌∷◌ x) (combinations k xs) ++ combinations (suc k) xs

module _ (f : Float) where
  open f use {F, of_nat, add, over, minus_one, lt}

  abbrev get_bandwidth_score : String → String → TopologyMatrix → F
  get_bandwidth_score a b m = of_nat (link_type_score (get_link_type a b m))

  abbrev pair_score : TopologyMatrix → List String → F
  pair_score m (a ∷ b ∷ []) = get_bandwidth_score a b m
  pair_score m _ = of_nat 0

  abbrev add_scores : TopologyMatrix → F → List (List String) → F
  add_scores m acc [] = acc
  add_scores m acc (pair ∷ pairs) = add_scores m (add acc (pair_score m pair)) pairs

  -- total_score / len(pairs)
  abbrev average_score : TopologyMatrix → List (List String) → F
  average_score m pairs = over (add_scores m (of_nat 0) pairs) (of_nat (length pairs))

  unfoldable pub get_group_topology_score : List String → TopologyMatrix → F
  unfolding get_link_type combinations
  get_group_topology_score [] m = of_nat 0
  get_group_topology_score (a ∷ []) m = of_nat 100
  get_group_topology_score (a ∷ b ∷ ids) m = average_score m (combinations 2 (a ∷ b ∷ ids))

  -- The loop of `find_best_clique` over the combinations.
  unfoldable pub best_combination :
      TopologyMatrix → F → List String → List (List String) → List String
  best_combination m best_score best [] = best
  best_combination m best_score best (c ∷ cs) =
      let score = get_group_topology_score c m in
      best_combination m (if lt best_score score then score else best_score)
        (if lt best_score score then c else best) cs

  unfoldable pub find_best_clique : ℕ → List String → TopologyMatrix → List String
  unfolding best_combination
  find_best_clique zero ids m = []
  find_best_clique (suc zero) [] m = []
  find_best_clique (suc zero) (id ∷ ids) m = id ∷ []
  find_best_clique (suc (suc k)) ids m =
      if ltb (length ids) (suc (suc k))
      then []
      else best_combination m minus_one [] (combinations (suc (suc k)) ids)

-- text.split(":")[1] if ":" in text else ""
until_colon : String → String
until_colon String.[] = ""
until_colon (String.◌∷◌ c s) =
    let rest = until_colon s in if code c == b':' then "" else String.◌∷◌ c rest

second_part : String → String
unfolding until_colon
second_part String.[] = ""
second_part (String.◌∷◌ c s) =
    let rest = second_part s in if code c == b':' then until_colon s else rest

-- Both are present, not empty and equal.
abbrev same_text : Option String → Option String → Bool
same_text (some a) (some b) = ite (dec_text a "") false (ite (dec_text a b) true false)
same_text _ _ = false

abbrev bus_prefix : Option String → Option String
bus_prefix none = none
bus_prefix (some id) = some (second_part id)

abbrev numa_link : Option ℤ → Option ℤ → InterconnectLinkType
numa_link (some a) (some b) = ite (ℤ-discrete a b) pcie numa
numa_link _ _ = unknown

unfoldable pub infer_link_type : ComputeDevice → ComputeDevice → InterconnectLinkType
unfolding second_part
infer_link_type a b =
    if same_text (lookup "nvlink_group" a.topology_tags) (lookup "nvlink_group" b.topology_tags)
    then nvlink
    else if same_text (bus_prefix a.pcie_bus_id) (bus_prefix b.pcie_bus_id)
    then pcie_switch
    else numa_link a.numa_node b.numa_node

pub record TopologyGraph : Type 0 where
  pub devices : Dict ComputeDevice
  pub matrix : TopologyMatrix

link_others : ComputeDevice → Dict ComputeDevice → TopologyMatrix → TopologyMatrix
link_others device [] m = m
link_others device ((other_id, other) ∷ rest) m = link_others device rest (
    ite (dec_text other_id device.device_id) m
      (set_link device.device_id other_id (value (infer_link_type device other)) m))

unfoldable pub add_device : ComputeDevice → TopologyGraph → TopologyGraph
unfolding link_others set_link infer_link_type
add_device device g =
    let devices' = put device.device_id device g.devices in
    record {
      devices = devices';
      matrix =
          link_others device devices'
            (set_link device.device_id device.device_id (value self) g.matrix);
    }

unfoldable pub add_devices : List ComputeDevice → TopologyGraph → TopologyGraph
unfolding add_device
add_devices [] g = g
add_devices (d ∷ ds) g = add_devices ds (add_device d g)

-- TopologyGraph(devices=devices)
abbrev pub graph_of : List ComputeDevice → TopologyGraph
graph_of devices = add_devices devices (record { devices = []; matrix = [] })

-- What stands under one key of a raw topology: a device's row of link texts, or a whole matrix.
pub data RawValue : Type 0 where
  row_value : Dict String → RawValue
  matrix_value : Dict (Dict String) → RawValue

unfoldable pub load_row : String → Dict String → TopologyMatrix → TopologyMatrix
unfolding set_link
load_row a [] m = m
load_row a ((b, link) ∷ links) m = load_row a links (set_link a b link m)

unfoldable pub load_rows : Dict (Dict String) → TopologyMatrix → TopologyMatrix
unfolding load_row
load_rows [] m = m
load_rows ((a, links) ∷ rows) m = load_rows rows (load_row a links m)

-- A matrix in the place of a row gives a link's text for each of its rows: `str` of the row.
module _ (str : Dict String → String) where
  unfoldable pub load_printed : String → Dict (Dict String) → TopologyMatrix → TopologyMatrix
  unfolding set_link
  load_printed a [] m = m
  load_printed a ((b, r) ∷ rows) m = load_printed a rows (set_link a b (str r) m)

  unfoldable pub load_values : Dict RawValue → TopologyMatrix → TopologyMatrix
  unfolding load_row load_printed
  load_values [] m = m
  load_values ((a, row_value r) ∷ raw) m = load_values raw (load_row a r m)
  load_values ((a, matrix_value rows) ∷ raw) m = load_values raw (load_printed a rows m)

  -- raw.get("topology_matrix") or raw: a row found there has texts for its values, and they are
  -- passed over.
  unfoldable pub load_raw_topology : Dict RawValue → TopologyMatrix → TopologyMatrix
  unfolding load_rows load_values
  load_raw_topology raw m = elim (lookup "topology_matrix" raw) [
    | some (matrix_value (r ∷ rows)) ↦ load_rows (r ∷ rows) m
    | some (row_value (l ∷ links)) ↦ m
    | _ ↦ load_values raw m
  ]
