-- ===== src/Raft/Core/Promotion/Majority.antt =====
-- How a core of internal/raft/core.go becomes the leader.
use crane.Base.{
  ℕ, ◌+◌, ◌≤◌, ◌≡◌, refl, sym, ap, ◌∙◌, ◌⊎◌, inl, inr, true, false, ◌==◌, length, none, arith,
  Bool-cases, Option-cases, ==→≡,
}
use crane.Base.Maps.{contains}
use crane.Raft.Voters.{VoterSet, majority, contains_voter}
use crane.Raft.Messages.{
  Rpc, RequestVoteResponse, handshake, handshake_ack, pre_vote_request, pre_vote_response,
  request_vote_request, request_vote_response, append_entries_request, append_entries_response,
  install_snapshot_request, install_snapshot_response, error_response, validate_rpc_sender,
}
use crane.Raft.Core.State.{Core, Outcome, is_leader, is_candidate}
use crane.Raft.Core.Roles.{adopt_higher_term}
use crane.Raft.Core.Queue.{record_hard_state}
use crane.Raft.Core.Election.{handle_vote_response}
use crane.Raft.Core.Step.{step, handle_rpc, check_rpc}
use crane.Raft.Core.Runs.{
  Call, ticked, stepped, proposed, read, advanced, compacted, transferred, completed,
}
use crane.Raft.Core.Promotion.{
  Unled, handle_pre_vote_request-Unled, handle_pre_vote_response-Unled, handle_vote_request-Unled,
}
use crane.Raft.Core.Promotion.Followers.{
  handle_append_request-Unled, handle_append_response-Unled, handle_install_snapshot_request-Unled,
  handle_install_snapshot_response-Unled,
}
use crane.Raft.Core.Promotion.Calls.{
  tick-Unled, propose_tracked-Unled, ready-Unled, advance-Unled, compact_snapshot-Unled,
  start_snapshot_transfer-Unled, complete_snapshot_action-Unled,
}

-- The vote response `m` completes a majority for the candidate `c`.
record Wins (m : RequestVoteResponse) (c : Core) : Type 0 where
  standing : is_candidate c.role ≡ true
  granted : m.granted ≡ true
  own : m.candidate_id ≡ c.local_id
  own_term : m.request_term ≡ c.hard_state.term
  same_term : m.term ≡ c.hard_state.term
  uncounted : contains m.responder_id c.votes ≡ false
  majority_reached : majority c.voters ≤ length c.votes + 1

handle_vote_response-Wins :
    (m : RequestVoteResponse) (c : Core)
    → Unled c
    → is_leader (handle_vote_response m c).0.role ≡ true
    → Wins m c
unfolding handle_vote_response adopt_higher_term record_hard_state
handle_vote_response-Wins m c f h = ground arith

-- Of all RPCs only a vote response promotes.
handle_rpc_promotes :
    (offset : ℕ) (rpc : Rpc) (c : Core)
    → Unled c
    → is_leader (handle_rpc offset rpc c).0.role ≡ true
    → (m : RequestVoteResponse) × (rpc ≡ request_vote_response m) × Wins m c
unfolding handle_rpc
handle_rpc_promotes offset (pre_vote_request m) c f h =
    let g = handle_pre_vote_request-Unled m c f in absurd (cc)
handle_rpc_promotes offset (pre_vote_response m) c f h =
    let g = handle_pre_vote_response-Unled offset m c f in absurd (cc)
handle_rpc_promotes offset (request_vote_request m) c f h =
    let g = handle_vote_request-Unled m c f in absurd (cc)
handle_rpc_promotes offset (request_vote_response m) c f h =
    (m, refl, handle_vote_response-Wins m c f h)
handle_rpc_promotes offset (append_entries_request m) c f h =
    let g = handle_append_request-Unled offset m c f in absurd (cc)
handle_rpc_promotes offset (install_snapshot_request m) c f h =
    let g = handle_install_snapshot_request-Unled offset m c f in absurd (cc)
handle_rpc_promotes offset (append_entries_response m) c f h =
    let g = handle_append_response-Unled m c f in absurd (cc)
handle_rpc_promotes offset (install_snapshot_response m) c f h =
    let g = handle_install_snapshot_response-Unled m c f in absurd (cc)
handle_rpc_promotes offset (error_response m) c f h = absurd (cc)
handle_rpc_promotes offset (handshake m) c f h = absurd (cc)
handle_rpc_promotes offset (handshake_ack m) c f h = absurd (cc)

-- The vote response comes from a voter.
voter_known :
    (m : RequestVoteResponse) (sender_id : ℕ) (s : VoterSet)
    → validate_rpc_sender (request_vote_response m) sender_id s ≡ none
    → contains_voter s m.responder_id ≡ true
unfolding validate_rpc_sender
voter_known m sender_id s h = elim (Bool-cases (contains_voter s sender_id)) [
  | inr stranger ↦ absurd (ground arith)
  | inl known ↦ elim (Bool-cases (m.responder_id == sender_id)) [
    | inl same ↦ rw (==→≡ _ _ same) known
    | inr forged ↦ absurd (ground arith)
  ]
]

-- Step leaves the core as it is, or hands the RPC of a voter to its handler.
step_split :
    (offset sender_id : ℕ) (rpc : Rpc) (c : Core)
    → ((step offset sender_id rpc c).0 ≡ c)
      ⊎ ((validate_rpc_sender rpc sender_id c.voters ≡ none)
          × (step offset sender_id rpc c ≡ handle_rpc offset rpc c))
unfolding step
step_split offset sender_id rpc c = elim (Option-cases c.terminal_err) [
  | inr (e, q) ↦ inl (simp (q, step) refl)
  | inl q ↦ elim (Bool-cases c.has_pending) [
    | inl p ↦ inl (simp (q, p, step) refl)
    | inr p ↦ elim (Option-cases (validate_rpc_sender rpc sender_id c.voters)) [
      | inr (e, s) ↦ inl (simp (q, p, s, step) refl)
      | inl s ↦ elim (Option-cases (check_rpc rpc c)) [
        | inr (e, r) ↦ inl (simp (q, p, s, r, step) refl)
        | inl r ↦ inr (s, simp (q, p, s, r, step) refl)
      ]
    ]
  ]
]

-- The call from `c` to `d` was a vote response that elected the core: it was standing for election, and a
-- voter that it had not counted granted the vote that it asked for in its current term.
pub record Victory (c d : Core) : Type 0 where
  pub offset : ℕ
  pub sender_id : ℕ
  pub response : RequestVoteResponse
  pub by_vote : d ≡ (step offset sender_id (request_vote_response response) c).0
  pub standing : is_candidate c.role ≡ true
  pub from_voter : contains_voter c.voters response.responder_id ≡ true
  pub granted : response.granted ≡ true
  pub own_request : response.candidate_id ≡ c.local_id
  pub own_term : response.request_term ≡ c.hard_state.term
  pub same_term : response.term ≡ c.hard_state.term
  pub uncounted : contains response.responder_id c.votes ≡ false
  pub majority_reached : majority c.voters ≤ length c.votes + 1

step_elects :
    (offset sender_id : ℕ) (rpc : Rpc) (c : Core)
    → Unled c
    → is_leader (step offset sender_id rpc c).0.role ≡ true
    → Victory c (step offset sender_id rpc c).0
step_elects offset sender_id rpc c f h = elim (step_split offset sender_id rpc c) [
  | inl still ↦
      let g : is_leader (step offset sender_id rpc c).0.role ≡ false =
        ap (λ (d : Core). is_leader d.role) still ∙ f in
      absurd (cc)
  | inr (valid, handled) ↦
      let promoted : is_leader (handle_rpc offset rpc c).0.role ≡ true =
        ap (λ (o : Outcome). is_leader o.0.role) (sym handled) ∙ h in
      let (m, same, w) = handle_rpc_promotes offset rpc c f promoted in
      record {
        offset = offset;
        sender_id = sender_id;
        response = m;
        by_vote = ap (λ (r : Rpc). (step offset sender_id r c).0) same;
        standing = w.standing;
        from_voter =
            voter_known m sender_id c.voters
              (ap (λ (r : Rpc). validate_rpc_sender r sender_id c.voters) (sym same) ∙ valid);
        granted = w.granted;
        own_request = w.own;
        own_term = w.own_term;
        same_term = w.same_term;
        uncounted = w.uncounted;
        majority_reached = w.majority_reached;
      }
]

-- Whatever is called, a core that does not lead becomes the leader only as a candidate, by a Step that
-- handles a response of a voter that it had not counted, which grants the vote that it asked for in its
-- current term, and with which its votes are a majority. Clock ticks, other RPCs, proposals, batches and
-- snapshot work make no leader.
pub elected_by_majority :
    (c d : Core) → Call c d → is_leader c.role ≡ false → is_leader d.role ≡ true → Victory c d
elected_by_majority c _ (ticked offset now) f h = let g = tick-Unled offset now c f in absurd (cc)
elected_by_majority c _ (stepped offset sender_id rpc) f h = step_elects offset sender_id rpc c f h
elected_by_majority c _ (proposed kind command) f h =
    let g = propose_tracked-Unled kind command c f in absurd (cc)
elected_by_majority c _ read f h = let g = ready-Unled c f in absurd (cc)
elected_by_majority c _ (advanced token) f h = let g = advance-Unled token c f in absurd (cc)
elected_by_majority c _ (compacted m) f h = let g = compact_snapshot-Unled m c f in absurd (cc)
elected_by_majority c _ (transferred p t l s) f h =
    let g = start_snapshot_transfer-Unled p s t l c f in absurd (cc)
elected_by_majority c _ (completed token r k) f h =
    let g = complete_snapshot_action-Unled token r c f in absurd (cc)
