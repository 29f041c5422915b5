-- ===== src/Fdb/Counts.antt =====
-- The records of `assemble_fdb` of fdb.py against the addresses learned.
use aruba_network_agent.Prelude.{
  ◌≡◌, refl, sym, ap, subst, ◌∙◌, List, [], ◌∷◌, pair_Eq, length, All,
}
use aruba_network_agent.Prelude.Dict.{Dict, get}
use aruba_network_agent.Prelude.Text.{text_Eq}
use aruba_network_agent.Fdb.{
  Text, Columns, Learned, raw_learned, among, Dedupe, macs_of, dedupe, MacRecord, record_of,
  records_of, assemble_fdb,
}
use aruba_network_agent.Fdb.Places.{
  Place, places, on_port, IsDistinct, IsCounted, dedupe-IsCounted, dedupe-among,
}

-- The addresses and ports of records.
abbrev pub record_places : List MacRecord → List Place
record_places [] = []
record_places (r ∷ rs) = (r.mac, r.ifindex) ∷ record_places rs

record_places-records_of :
    (names : Dict Text Text) (per_if : Dict Text (List Text)) (ls : List Learned)
    → record_places (records_of names per_if ls) ≡ places ls
unfolding records_of record_of
record_places-records_of names per_if [] = refl
record_places-records_of names per_if (l ∷ ls) =
    ap (λ ps. l.1 ∷ ps) (record_places-records_of names per_if ls)

records_of-counts :
    (names : Dict Text Text) (per_if : Dict Text (List Text)) (ls : List Learned) (ps : List Place)
    → ((index : Text) → length (macs_of index per_if) ≡ on_port index ps)
    → All (λ r. r.port_mac_count ≡ on_port r.ifindex ps) (records_of names per_if ls)
unfolding records_of record_of
records_of-counts names per_if [] ps h = tt
records_of-counts names per_if (l ∷ ls) ps h = (h l.1.1, records_of-counts names per_if ls ps h)

-- Of the records that are assembled: their places, an address on a port, are those that were learned,
-- each once; and the count of a record is the number of records with its port.
pub port_counts_agree :
    (columns : Columns) (p : Place)
    → let rs = assemble_fdb columns in
      let ps = record_places rs in
      (among p ps ≡ among p (places (raw_learned columns)))
      × IsDistinct ps
      × All (λ r. r.port_mac_count ≡ on_port r.ifindex ps) rs
unfolding assemble_fdb among
port_counts_agree columns p =
    let start : Dedupe = record { seen = []; per_if_macs = []; deduped = [] } in
    let raw = raw_learned columns in
    let d = dedupe raw start in
    let nothing : IsCounted start = record {
      listed = refl;
      distinct = tt;
      counted = λ index. unfold get in refl;
      member = λ mac index. unfold get in refl;
    } in
    let h = dedupe-IsCounted raw start nothing in
    let same : record_places (records_of columns.if_name d.per_if_macs d.deduped) ≡ d.seen =
      record_places-records_of columns.if_name d.per_if_macs d.deduped ∙ sym h.listed in
    (
      ap (among p) same ∙ dedupe-among p raw start,
      subst IsDistinct (sym same) h.distinct,
      subst
          (λ ps.
            All (λ r. r.port_mac_count ≡ on_port r.ifindex ps)
              (records_of columns.if_name d.per_if_macs d.deduped))
          (sym same) (records_of-counts columns.if_name d.per_if_macs d.deduped d.seen h.counted),
    )
