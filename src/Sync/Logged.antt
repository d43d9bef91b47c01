-- ===== src/Sync/Logged.antt =====
-- src/db/sync.py: the log of the syncs tells what each source did.
use whatsapp_radar.Base.{
  ℕ, String, ◌≡◌, refl, ap, ap₂, sym, ◌∙◌, none, some, List, [], ◌∷◌, ◌++◌, map, All, append_assoc,
  append-nil, if◌then◌else◌,
}
use whatsapp_radar.Sync.{
  ConnectorBinding, IngestDelta, Reply, offline, got, SyncRow, Ledger, SourceSyncOutcome, is_ok,
  no_delta, result_of, record_sync, ingest_source, sync_source, sync_sources,
}

-- What a row of the log and a result say of a source.
abbrev pub Report : Type 0
Report = String × String × ℕ × ℕ × ℕ

abbrev pub row_report : SyncRow → Report
row_report x = (x.connector_source, x.status, x.chats_added, x.chats_updated, x.messages_added)

abbrev pub result_report : SourceSyncOutcome → Report
result_report r = (
  r.source,
  if is_ok r then "success" else "failed",
  r.delta.chats_added,
  r.delta.chats_updated,
  r.delta.messages_added,
)

-- A result that has an error has no counts.
abbrev pub IsQuiet : SourceSyncOutcome → Type 0
IsQuiet r = elim r.error [ none ↦ Unit | some text ↦ r.delta ≡ no_delta ]

module _ (clock : String → String) (now cutoff : String) (operation : String)
    (retention_days : ℕ) where
  result_of-IsQuiet :
      (source : String) (reply : Reply IngestDelta) → IsQuiet (result_of source reply)
  result_of-IsQuiet source (offline text) = refl
  result_of-IsQuiet source (got delta) = tt

  source-result_of :
      (source : String) (reply : Reply IngestDelta) → (result_of source reply).source ≡ source
  source-result_of source (offline text) = refl
  source-result_of source (got delta) = refl

  -- Every source of a sync has its own result, in their order, also after a source that is offline;
  -- and a result with an error counts nothing.
  pub sync_sources-IsQuiet :
      (bs : List ConnectorBinding) (l : Ledger)
      → (map (λ r. r.source) (sync_sources clock now cutoff operation retention_days bs l).1
          ≡ map (λ b. b.source) bs)
        × All IsQuiet (sync_sources clock now cutoff operation retention_days bs l).1
  unfolding sync_sources sync_source
  sync_sources-IsQuiet [] l = (refl, tt)
  sync_sources-IsQuiet (b ∷ bs) l =
      let reply = (ingest_source clock now cutoff operation retention_days b l.db).1 in
      let rest =
        sync_sources-IsQuiet bs (sync_source clock now cutoff operation retention_days b l).0 in
      (
        ap₂ (λ s ss. s ∷ ss) (source-result_of b.source reply) rest.0,
        (result_of-IsQuiet b.source reply, rest.1),
      )

  -- Every row that a sync appends to the log, in order, is of one of its bindings, in their order, and
  -- also of those after a source that is offline; the row has the status and the counts of that
  -- source's result, and the rows of before stay.
  pub sync_sources-log :
      (bs : List ConnectorBinding) (l : Ledger)
      → (rows : List SyncRow) × ((sync_sources clock now cutoff operation retention_days bs
            l).0.sync_log
          ≡ l.sync_log ++ rows)
        × (map (λ x. x.connector_source) rows ≡ map (λ b. b.source) bs)
        × (map row_report rows
            ≡ map result_report (sync_sources clock now cutoff operation retention_days bs l).1)
  unfolding sync_sources sync_source record_sync
  sync_sources-log [] l = ([], sym (append-nil l.sync_log), refl, refl)
  sync_sources-log (b ∷ bs) l =
      let reply = (ingest_source clock now cutoff operation retention_days b l.db).1 in
      let step = sync_source clock now cutoff operation retention_days b l in
      let rest = sync_sources-log bs step.0 in
      (
        _ ∷ rest.0,
        rest.1 ∙ append_assoc l.sync_log (_ ∷ []) rest.0,
        ap₂ (λ s ss. s ∷ ss) (source-result_of b.source reply) rest.2,
        ap (λ rs. result_report step.1 ∷ rs) rest.3,
      )
