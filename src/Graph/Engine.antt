-- ===== src/Graph/Engine.antt =====
-- packages/graph_engine/engine.py: the metrics of a transaction against the graph before it, the
-- structural score, the signals and the candidate flag. The clock of `computed_at` and the hash of
-- the fingerprints are parameters.
pub mod Signals
pub mod Assess
pub mod Laws
pub mod Past
pub mod Guard
use aegis_ai_risk_manager.Common.{
  ℕ, ◌+◌, ◌-◌, ◌*◌, Bool, true, false, not, ◌&&◌, ◌||◌, List, [], ◌∷◌, ◌++◌, length, max, ltb, leb,
  ◌==◌, ◌!=◌, count_of, if◌then◌else◌, Option, none, some, Result, ok, raise, ◌>>=◌, key_error,
  select, map, nat_eq,
}
use aegis_ai_risk_manager.Common.Dict.{lookup}
use aegis_ai_risk_manager.Common.Sets.{contains, from_keys, unique_from}
use aegis_ai_risk_manager.Common.Float.{Float, of_int, float_min}
use aegis_ai_risk_manager.Enums.{
  GraphEntityType, customer, payment_instrument, device, ip, address, entity_type_eq,
}
use aegis_ai_risk_manager.Graph.Domain.{
  GraphEntityRef, ref_eq, GraphTransaction, customer_of, instrument_of, device_of, ip_of,
  address_of, relationships,
}
use aegis_ai_risk_manager.Graph.State.{
  Edge, TemporalEdge, GraphState, edge_key, neighbors, has_edge, edge_eq,
}
use aegis_ai_risk_manager.Graph.State.Components.{touched_components, component_edges}

unfoldable pub count_type : List GraphEntityRef → GraphEntityType → ℕ
unfolding count_of
count_type members t = count_of (λ (r : GraphEntityRef). r.entity_type == t) members

-- `ten_minutes_ago <= first_seen_at < event_time`; ten minutes before a time near the epoch is
-- negative in the source, and before every observation, as 0 is here.
unfoldable pub in_last_ten_minutes : ℕ → TemporalEdge → Bool
in_last_ten_minutes time metadata =
    leb (time - 600000000) metadata.first_seen_at && ltb metadata.first_seen_at time

abbrev pub or_missing : Option TemporalEdge → Result TemporalEdge
or_missing none = raise (key_error "")
or_missing (some metadata) = ok metadata

-- `state.edges[...]` between two entities, in the order of their keys; what the error of a missing
-- edge says of its key is left out.
unfoldable pub edge_at : GraphEntityRef → GraphEntityRef → GraphState → Result TemporalEdge
unfolding lookup edge_key
edge_at left right state = or_missing (lookup (edge_key left right) state.edges)

-- How many of the entities have an edge of the last ten minutes to the device.
unfoldable pub count_recent : ℕ → GraphEntityRef → List GraphEntityRef → GraphState → Result ℕ
unfolding edge_at in_last_ten_minutes
count_recent time entity [] state = ok 0
count_recent time entity (r ∷ rs) state = do
  metadata ← edge_at entity r state
  others ← count_recent time entity rs state
  ok (if in_last_ten_minutes time metadata then 1 + others else others)

-- The union of two sets of entities of different types, and the flattening of a set of sets.
unfoldable pub flatten : List (List GraphEntityRef) → List GraphEntityRef
flatten [] = []
flatten (xs ∷ xss) = xs ++ flatten xss

-- The customers and instruments that are linked to the device.
unfoldable pub device_identities : GraphTransaction → GraphState → List GraphEntityRef
unfolding neighbors unique_from
device_identities current state = from_keys (
    neighbors (device_of current) customer state
    ++ neighbors (device_of current) payment_instrument state)

-- The local variables of `assess` that the metrics and signals are made of.
pub record Measures (F : Type 0) : Type 0 where
  pub components : List (List GraphEntityRef)
  pub members : List GraphEntityRef
  pub edges : List (Edge × TemporalEdge)
  pub customer_count : ℕ
  pub device_count : ℕ
  pub instrument_count : ℕ
  pub ip_count : ℕ
  pub address_count : ℕ
  pub density : F
  pub device_customers : ℕ
  pub device_instruments : ℕ
  pub ip_customers : ℕ
  pub ip_devices : ℕ
  pub address_customers : ℕ
  pub instrument_devices : ℕ
  pub instrument_customers : ℕ
  pub two_hop_customers : ℕ
  pub recent_edges : ℕ
  pub device_new_identities : ℕ
  pub new_edges : List Bool
  pub score : F

module _ {F : Type 0} ⦃f : Float F⦄ where
  unfoldable pub multipartite_density : ℕ → ℕ → ℕ → ℕ → ℕ → ℕ → F
  multipartite_density edge_count customers devices instruments ips addresses =
      let capacity =
        customers * devices
        + customers * instruments
        + customers * ips
        + customers * addresses
        + instruments * devices in
      if capacity == 0 then of_int 0 else f.ratio edge_count capacity

  unfoldable pub structural_score : ℕ → ℕ → ℕ → ℕ → ℕ → F → ℕ → F
  structural_score device_customer_degree device_instrument_degree customers instruments devices
        density recent_edges =
      let identity_concentration =
        float_min (of_int 1) (f.ratio (device_customer_degree + device_instrument_degree) 8) in
      let cross_entity_reuse =
        float_min (of_int 1) (f.ratio (customers + instruments) (max devices 1 * 8)) in
      let relationship_velocity = float_min (of_int 1) (f.ratio recent_edges 10) in
      let component_structure =
        if leb 3 customers && leb 3 instruments
        then float_min (of_int 1) (f.mul density (of_int 2))
        else of_int 0 in
      f.round_digits
        (f.add
          (f.add
            (f.add (f.mul (f.ratio 35 100) identity_concentration)
              (f.mul (f.ratio 25 100) cross_entity_reuse))
            (f.mul (f.ratio 25 100) relationship_velocity))
          (f.mul (f.ratio 15 100) component_structure))
        6

  -- Lines 76 to 131, but for the count of new identities.
  unfoldable pub measures_with : ℕ → GraphTransaction → GraphState → Measures F
  unfolding touched_components component_edges count_type multipartite_density structural_score
      neighbors flatten in_last_ten_minutes count_of select unique_from contains has_edge
  measures_with new_identities current state =
      let components = touched_components state current in
      let members = from_keys (flatten components) in
      let edges = component_edges state members in
      let customers = count_type members customer in
      let devices = count_type members device in
      let instruments = count_type members payment_instrument in
      let ips = count_type members ip in
      let addresses = count_type members address in
      let density =
        multipartite_density (length edges) customers devices instruments ips addresses in
      let device_customers = neighbors (device_of current) customer state in
      let device_instruments = neighbors (device_of current) payment_instrument state in
      let ip_customers = neighbors (ip_of current) customer state in
      let ip_devices = from_keys (flatten (map (λ r. neighbors r device state) ip_customers)) in
      let two_hop =
        select (λ r. r != customer_of current) (from_keys (device_customers ++ ip_customers)) in
      let recent_edges =
        count_of (λ (e : Edge × TemporalEdge). in_last_ten_minutes current.event_time e.1) edges in
      record {
        components = components;
        members = members;
        edges = edges;
        customer_count = customers;
        device_count = devices;
        instrument_count = instruments;
        ip_count = ips;
        address_count = addresses;
        density = density;
        device_customers = length device_customers;
        device_instruments = length device_instruments;
        ip_customers = length ip_customers;
        ip_devices = length ip_devices;
        address_customers = length (neighbors (address_of current) customer state);
        instrument_devices = length (neighbors (instrument_of current) device state);
        instrument_customers = length (neighbors (instrument_of current) customer state);
        two_hop_customers = length two_hop;
        recent_edges = recent_edges;
        device_new_identities = new_identities;
        new_edges = map (λ (e : Edge). not (has_edge e.0 e.1 state)) (relationships current);
        score =
            structural_score (length device_customers) (length device_instruments) customers
              instruments devices density recent_edges;
      }

  -- Lines 76 to 131.
  unfoldable pub measure : GraphTransaction → GraphState → Result (Measures F)
  unfolding measures_with device_identities count_recent
  measure current state = do
    new_identities ←
        count_recent current.event_time (device_of current) (device_identities current state) state
    ok (measures_with new_identities current state)
