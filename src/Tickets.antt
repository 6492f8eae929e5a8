-- ===== src/Tickets.antt =====
-- tickets.py: a resolved Linear ticket, and the finding made of it. The fields of a ticket are texts
-- whose control characters are gone.
use doc_lattice.Prelude.{Option, List, nat_eq, list_eq, option_eq}
use doc_lattice.Text.{Text}
use doc_lattice.Dict.{Dict}
use doc_lattice.Model.{DocumentOrigin}

-- constants.py: LinearStateType, Severity, BlockedReason
pub data LinearStateType : Type 0 where
  triage backlog unstarted started completed canceled duplicate : LinearStateType

pub data Severity : Type 0 where
  danger warning info blocked : Severity

pub data BlockedReason : Type 0 where
  malformed not_found cross_team : BlockedReason

pub record TicketState : Type 0 where
  pub name : Text
  pub type : LinearStateType

pub record TicketRef : Type 0 where
  pub identifier : Text
  pub title : Option Text
  pub state : TicketState

pub record Ticket : Type 0 where
  pub identifier : Text
  pub title : Option Text
  pub url : Text
  pub state : TicketState
  pub parent : Option TicketRef
  pub children : List TicketRef

pub record Finding : Type 0 where
  pub severity : Severity
  pub node_id : Text
  pub node_title : Option Text
  pub node_path : Text
  pub drifted_refs : List Text
  pub ticket_ref : Text
  pub reason : Option BlockedReason
  pub ticket : Option Ticket
  pub origins : Dict Text DocumentOrigin
