-- ===== src/Ledger/Apply.antt =====
-- `apply`: the signature and the nonce first, then the transaction's handler.
use ducp_node_rs.Common.{not}
use ducp_node_rs.Types.Reject.{Result, bad_signature, ◌>>=◌, ◌>>◌, reject_if}
use ducp_node_rs.Types.Bytes.{Identity}
use ducp_node_rs.Types.Tx.{Tx, SignedTx}
use ducp_node_rs.Types.Primitives.{Primitives, verify_sig}
use ducp_node_rs.Governance.{Params}
use ducp_node_rs.Ledger.State.{State, check_and_bump_nonce}
use ducp_node_rs.Ledger.Handlers.{submit_task, claim_task, submit_proof, open_challenge, transfer}

unfoldable pub dispatch : Primitives → State → Identity → Tx → Params → Result State
dispatch p s author (Tx.submit_task body) params = submit_task p s author body params
dispatch p s author (Tx.claim_task task) params = claim_task s author task params
dispatch p s author (Tx.submit_proof proof) params = submit_proof s author proof params
dispatch p s author (Tx.transfer to amount) params = transfer s author to amount
dispatch p s author (Tx.challenge task bond) params = open_challenge s author task bond params

unfoldable pub apply : Primitives → State → SignedTx → Params → Result State
apply p s stx params = do
  reject_if (not (verify_sig p stx)) bad_signature
  bumped ← check_and_bump_nonce s stx.author stx.nonce
  dispatch p bumped stx.author stx.tx params
