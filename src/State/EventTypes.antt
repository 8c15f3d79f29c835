-- ===== src/State/EventTypes.antt =====
-- The messages of state/models.go that other services put into the queues, by the fields that the
-- code reads.
use flotilla_os.Common.{String, List, Option, none}

pub record CloudTrailS3File : Type 0 where
  pub s3_bucket : String
  pub s3_object_key : List String

pub record InvolvedObject : Type 0 where
  pub kind : String
  pub namespace : String
  pub name : String
  pub job_name : String

pub record KubernetesEvent : Type 0 where
  pub reason : String
  pub message : String
  pub first_timestamp : String
  pub event_type : String
  pub involved_object : InvolvedObject

pub record Detail : Type 0 where
  pub id : Option String
  pub state : Option String
  pub failure_reason : Option String
  pub state_details : Option String

pub record EmrEvent : Type 0 where
  pub time : Option String
  pub detail : Option Detail

abbrev pub no_object : InvolvedObject
no_object = record { kind = ""; namespace = ""; name = ""; job_name = "" }

abbrev pub no_kubernetes_event : KubernetesEvent
no_kubernetes_event = record {
  reason = "";
  message = "";
  first_timestamp = "";
  event_type = "";
  involved_object = no_object;
}

abbrev pub no_emr_event : EmrEvent
no_emr_event = record { time = none; detail = none }
