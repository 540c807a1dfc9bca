-- ===== src/Shared.antt =====
-- shared/src/schemas: the enumerations that the packages share, with the sources' values, and
-- their comparisons (`===` on two values of one enumeration).
use livechat.Prelude.{Bool, true, false}

pub data ChatStatus : Type 0 where
  pending active waiting ended_by_customer ended_by_support abandoned : ChatStatus

pub data ChatInitiatedBy : Type 0 where
  customer support : ChatInitiatedBy

pub data MessageSenderKind : Type 0 where
  visitor user system : MessageSenderKind

pub data ConsentPurpose : Type 0 where
  functional presence analytics : ConsentPurpose

pub data PurposeDecision : Type 0 where
  granted denied : PurposeDecision

pub data Jurisdiction : Type 0 where
  eu uk us_ca us unknown : Jurisdiction

pub data LegalBasis : Type 0 where
  consent legitimate_interest opt_out withdrawn no_basis : LegalBasis

pub data ConsentSource : Type 0 where
  gpc banner default : ConsentSource

pub data VisitorStatus : Type 0 where
  active idle offline : VisitorStatus

pub record PurposeState : Type 0 where
  pub functional : PurposeDecision
  pub presence : PurposeDecision
  pub analytics : PurposeDecision

abbrev pub is_pending : ChatStatus → Bool
is_pending ChatStatus.pending = true
is_pending _ = false

abbrev pub status_eq : ChatStatus → ChatStatus → Bool
status_eq pending pending = true
status_eq active active = true
status_eq waiting waiting = true
status_eq ended_by_customer ended_by_customer = true
status_eq ended_by_support ended_by_support = true
status_eq abandoned abandoned = true
status_eq _ _ = false

abbrev pub is_granted : PurposeDecision → Bool
is_granted granted = true
is_granted denied = false

abbrev pub is_customer : ChatInitiatedBy → Bool
is_customer customer = true
is_customer support = false

abbrev pub is_user : MessageSenderKind → Bool
is_user MessageSenderKind.user = true
is_user _ = false

abbrev pub is_visitor : MessageSenderKind → Bool
is_visitor MessageSenderKind.visitor = true
is_visitor _ = false

abbrev pub is_banner : ConsentSource → Bool
is_banner banner = true
is_banner _ = false

abbrev pub decision_eq : PurposeDecision → PurposeDecision → Bool
decision_eq granted granted = true
decision_eq denied denied = true
decision_eq _ _ = false

abbrev pub jurisdiction_eq : Jurisdiction → Jurisdiction → Bool
jurisdiction_eq eu eu = true
jurisdiction_eq uk uk = true
jurisdiction_eq us_ca us_ca = true
jurisdiction_eq us us = true
jurisdiction_eq unknown unknown = true
jurisdiction_eq _ _ = false

abbrev pub basis_eq : LegalBasis → LegalBasis → Bool
basis_eq consent consent = true
basis_eq legitimate_interest legitimate_interest = true
basis_eq opt_out opt_out = true
basis_eq withdrawn withdrawn = true
basis_eq no_basis no_basis = true
basis_eq _ _ = false

abbrev pub bool_eq : Bool → Bool → Bool
bool_eq true b = b
bool_eq false true = false
bool_eq false false = true
