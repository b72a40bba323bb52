-- ===== src/Contracts/Keys.antt =====
-- shared/contracts/src/index.ts: the Redis keys, compared.
use distributed_code_executi.Common.{
  ◌++◌, ◌≡◌, ◌≢◌, refl, false, Text, codes, text_eq, ne_of_text_eq,
}

unfoldable pub pending_key : Text
pending_key = codes "jobs:queue:pending"

unfoldable pub dead_letter_key : Text
dead_letter_key = codes "jobs:queue:dead-letter"

unfoldable pub make_processing_key : Text → Text
make_processing_key worker_id = codes "jobs:queue:processing:" ++ worker_id

unfoldable pub make_heartbeat_key : Text → Text
make_heartbeat_key worker_id = codes "worker:heartbeat:" ++ worker_id

unfoldable pub make_stream_key : Text → Text
make_stream_key job_id = codes "jobs:streams:" ++ job_id

pub pending_key-ne-processing : (w : Text) → pending_key ≢ make_processing_key w
unfolding pending_key make_processing_key text_eq
pending_key-ne-processing w = ne_of_text_eq refl

pub text_eq-processing-pending : (w : Text) → text_eq (make_processing_key w) pending_key ≡ false
unfolding pending_key make_processing_key text_eq
text_eq-processing-pending w = refl

pub text_eq-pending-processing : (w : Text) → text_eq pending_key (make_processing_key w) ≡ false
unfolding pending_key make_processing_key text_eq
text_eq-pending-processing w = refl

pub text_eq-dead_letter-pending : text_eq dead_letter_key pending_key ≡ false
unfolding dead_letter_key pending_key text_eq
text_eq-dead_letter-pending = refl

pub text_eq-dead_letter-processing :
    (w : Text) → text_eq dead_letter_key (make_processing_key w) ≡ false
unfolding dead_letter_key make_processing_key text_eq
text_eq-dead_letter-processing w = refl

pub heartbeat-ne-pending : (w : Text) → make_heartbeat_key w ≢ pending_key
unfolding pending_key make_heartbeat_key text_eq
heartbeat-ne-pending w = ne_of_text_eq refl

pub heartbeat-ne-processing : (w v : Text) → make_heartbeat_key w ≢ make_processing_key v
unfolding make_processing_key make_heartbeat_key text_eq
heartbeat-ne-processing w v = ne_of_text_eq refl

-- Two workers have the same processing queue just when they have the same identifier.
pub text_eq-processing :
    (v w : Text) → text_eq (make_processing_key v) (make_processing_key w) ≡ text_eq v w
unfolding make_processing_key text_eq
text_eq-processing v w = refl
