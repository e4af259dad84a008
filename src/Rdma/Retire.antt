-- ===== src/Rdma/Retire.antt =====
-- What `RdmaProvider::poll` of src/transport/rdma/rdma_provider.cpp does with a completion of
-- something that `submit` posted on one connection, and `status_from_wc`.
use hux.Base.{ℕ, ◌+◌, ◌-◌, leb, if◌then◌else◌, Bool, true, false, ◌&&◌, List, [], ◌∷◌, length}
use hux.Types.{Status, is_ok}
use hux.Request.{CompletionEvent}
use hux.Rdma.Queues.{
  Controller, InflightKey, Entry, Limits, Connection, wr_qp_index, wr_seq, key_direction, set,
}

-- `ibv_wc_status`; `other` is any that the code does not name.
pub data WcStatus : Type 0 where
  success retry_exc_err rnr_retry_exc_err rem_access_err rem_op_err rem_inv_req_err : WcStatus
  wr_flush_err loc_prot_err loc_len_err other : WcStatus

-- A completion, with the number of its status.
pub record Wc : Type 0 where
  pub wr_id : ℕ
  pub status : WcStatus
  pub code : ℕ

-- The status, and whether the remote side may have changed.
unfoldable pub status_from_wc : WcStatus → Status × Bool
status_from_wc success = (Status.ok, false)
status_from_wc retry_exc_err = (Status.peer_disconnected, false)
status_from_wc rnr_retry_exc_err = (Status.peer_disconnected, false)
status_from_wc rem_access_err = (Status.transport_error, true)
status_from_wc rem_op_err = (Status.transport_error, true)
status_from_wc rem_inv_req_err = (Status.transport_error, true)
status_from_wc wr_flush_err = (Status.cancelled, false)
status_from_wc loc_prot_err = (Status.invalid_argument, false)
status_from_wc loc_len_err = (Status.invalid_argument, false)
status_from_wc other = (Status.transport_error, true)

abbrev pub is_success : WcStatus → Bool
is_success success = true
is_success _ = false

abbrev pub event_of : Wc → InflightKey → CompletionEvent
event_of wc k = record {
  request = k.request;
  sub_id = k.sub_id;
  bytes = k.bytes;
  status = (status_from_wc wc.status).0;
  provider_errno = wc.code;
  may_have_modified_target = (status_from_wc wc.status).1 && k.is_write;
}

module _ (K : Controller) where
  -- The controller hears of each entry that is retired.
  abbrev pub told_of : K.State → ℕ → Status → InflightKey → K.State
  told_of cc at s k =
      if is_ok s
      then K.on_feedback cc (key_direction k) k.bytes (at - k.posted_at) at
      else K.on_error cc (key_direction k) k.bytes at

  pub record Retired : Type 0 where
    pub gone : List Entry
    pub left : List Entry
    pub cc : K.State

  -- The loop over `unsignalled`, up to sequence number `seq`, at the time `at`.
  unfoldable pub retire_loop : ℕ → ℕ → Status → K.State → List Entry → Retired
  retire_loop seq at s cc [] = record { gone = []; left = []; cc = cc }
  retire_loop seq at s cc (e ∷ es) =
      let rest = retire_loop seq at s (told_of cc at s e.key) es in
      if leb e.seq seq
      then record rest { gone = e ∷ rest.gone }
      else record { gone = []; left = e ∷ es; cc = cc }

  abbrev pub events_of : Wc → List Entry → List CompletionEvent
  events_of wc [] = []
  events_of wc (e ∷ es) = event_of wc e.key ∷ events_of wc es

  -- The events come in order, after those that `poll` already has.
  unfoldable pub retire : Limits → Connection K → Wc → ℕ → Connection K × List CompletionEvent
  unfolding retire_loop status_from_wc
  retire l c wc at =
      let n = wr_qp_index wc.wr_id in
      let seq = wr_seq wc.wr_id in
      let s = (status_from_wc wc.status).0 in
      let q = c.qps n in
      let r = retire_loop seq at s c.cc q.unsignalled in
      let known = record c { failed = if is_success wc.status then c.failed else true } in
      if leb l.qp_count n then (known, []) else (
        record known {
          qps = set c.qps n (record q { reclaimed = seq + 1; unsignalled = r.left });
          cc = r.cc;
          subops_completed =
              if is_ok s then c.subops_completed + length r.gone else c.subops_completed;
          subops_failed = if is_ok s then c.subops_failed else c.subops_failed + length r.gone;
        },
        events_of wc r.gone,
      )
