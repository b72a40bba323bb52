-- ===== src/Examples/Codec.antt =====
-- A small codec that keeps the law of the parameter: a field is its code units, each one more, and
-- a zero at its end.
use distributed_code_executi.Common.{ℕ, zero, suc, ◌≡◌, refl, ap, Option, none, some, [], ◌∷◌, Text}
use distributed_code_executi.Contracts.{
  DlqPayload, StreamChunk, ChunkType, stdout, stderr, system, QueuePayload, Language, python,
  javascript,
}
use distributed_code_executi.Services.{Json}

abbrev field : Text → Text → Text
field [] rest = 0 ∷ rest
field (c ∷ cs) rest = suc c ∷ field cs rest

abbrev put : ℕ → Text × Text → Text × Text
put c (t, rest) = (c ∷ t, rest)

abbrev read_field : Text → Text × Text
read_field [] = ([], [])
read_field (zero ∷ rest) = ([], rest)
read_field (suc c ∷ rest) = put c (read_field rest)

read_field_lem : (t rest : Text) → read_field (field t rest) ≡ (t, rest)
read_field_lem [] rest = refl
read_field_lem (c ∷ cs) rest = ap (put c) (read_field_lem cs rest)

abbrev optional : Option Text → Text → Text
optional none rest = 0 ∷ rest
optional (some t) rest = 1 ∷ field t rest

abbrev language_code : Language → ℕ
language_code python = 0
language_code javascript = 1

abbrev language_of : ℕ → Language
language_of zero = python
language_of (suc n) = javascript

abbrev encoded : QueuePayload → Text
encoded job =
    0
    ∷ language_code job.language
    ∷ job.retry_count
    ∷ field job.job_id (field job.code (field job.submitted_at (optional job.user_id [])))

abbrev present : Text → Option Text
present [] = none
present (zero ∷ rest) = none
present (suc n ∷ rest) = some (read_field rest).0

abbrev payload : ℕ → ℕ → Text × Text → Option QueuePayload
payload language retry_count (job_id, rest) =
    let code = read_field rest in
    let submitted_at = read_field code.1 in
    some (record {
      job_id = job_id;
      user_id = present submitted_at.1;
      code = code.0;
      language = language_of language;
      retry_count = retry_count;
      submitted_at = submitted_at.0;
    })

abbrev decoded : Text → Option QueuePayload
decoded (zero ∷ language ∷ retry_count ∷ rest) = payload language retry_count (read_field rest)
decoded _ = none

language_lem : (l : Language) → language_of (language_code l) ≡ l
language_lem python = refl
language_lem javascript = refl

present_lem : (o : Option Text) → present (optional o []) ≡ o
present_lem none = refl
present_lem (some t) = rw (read_field_lem t [])

pub decoded_lem : (job : QueuePayload) → decoded (encoded job) ≡ some job
decoded_lem job = rw (
  read_field_lem job.job_id (field job.code (field job.submitted_at (optional job.user_id []))),
  read_field_lem job.code (field job.submitted_at (optional job.user_id [])),
  read_field_lem job.submitted_at (optional job.user_id []),
  present_lem job.user_id,
  language_lem job.language,
)

abbrev type_code : ChunkType → ℕ
type_code stdout = 0
type_code stderr = 1
type_code system = 2

abbrev type_of : ℕ → ChunkType
type_of zero = stdout
type_of (suc zero) = stderr
type_of (suc (suc n)) = system

abbrev encoded_chunk : StreamChunk → Text
encoded_chunk c = 2 ∷ type_code c.type ∷ c.timestamp ∷ field c.content []

abbrev decoded_chunk : Text → Option StreamChunk
decoded_chunk (suc (suc zero) ∷ type ∷ timestamp ∷ rest) =
    some (record { type = type_of type; content = (read_field rest).0; timestamp = timestamp })
decoded_chunk _ = none

type_lem : (t : ChunkType) → type_of (type_code t) ≡ t
type_lem stdout = refl
type_lem stderr = refl
type_lem system = refl

pub decoded_chunk_lem : (c : StreamChunk) → decoded_chunk (encoded_chunk c) ≡ some c
decoded_chunk_lem c = rw (type_lem c.type, read_field_lem c.content [])

abbrev job_of : DlqPayload → QueuePayload
job_of p = record {
  job_id = p.job_id;
  user_id = p.user_id;
  code = p.code;
  language = p.language;
  retry_count = p.retry_count;
  submitted_at = p.submitted_at;
}

abbrev encoded_dlq : DlqPayload → Text
encoded_dlq p = 1 ∷ field p.failed_at (field p.reason (encoded (job_of p)))

abbrev dlq_of : Text → Text → Option QueuePayload → Option DlqPayload
dlq_of failed_at reason none = none
dlq_of failed_at reason (some job) = some (record {
  job_id = job.job_id;
  user_id = job.user_id;
  code = job.code;
  language = job.language;
  retry_count = job.retry_count;
  submitted_at = job.submitted_at;
  failed_at = failed_at;
  reason = reason;
})

abbrev decoded_dlq : Text → Option DlqPayload
decoded_dlq (suc zero ∷ rest) =
    let failed_at = read_field rest in
    let reason = read_field failed_at.1 in dlq_of failed_at.0 reason.0 (decoded reason.1)
decoded_dlq _ = none

pub decoded_dlq_lem : (p : DlqPayload) → decoded_dlq (encoded_dlq p) ≡ some p
decoded_dlq_lem p =
    rw
      (
        read_field_lem p.failed_at (field p.reason (encoded (job_of p))),
        read_field_lem p.reason (encoded (job_of p)),
      )
      (ap (dlq_of p.failed_at p.reason) (decoded_lem (job_of p)))

abbrev head_or_zero : Text → ℕ
head_or_zero [] = 0
head_or_zero (c ∷ cs) = c

abbrev pub json : Json
json = record {
  stringify_job = encoded;
  parse_job = decoded;
  stringify_dlq = encoded_dlq;
  stringify_chunk = encoded_chunk;
  parse_chunk = decoded_chunk;
  parse_dlq = decoded_dlq;
  parse-stringify_chunk = decoded_chunk_lem;
  parse-stringify_dlq = decoded_dlq_lem;
  iso = λ n. n ∷ [];
  parse_date = head_or_zero;
  parse-stringify = decoded_lem;
}
