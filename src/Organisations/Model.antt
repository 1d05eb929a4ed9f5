-- ===== src/Organisations/Model.antt =====
-- Code: src/domain/organisations/model.js, the enumerations that the modelled code reads.

-- `REGISTRATION_STATUS`
pub data RegistrationStatus : Type 0 where
  created approved cancelled rejected : RegistrationStatus

-- `ACCREDITATION_STATUS`
pub data AccreditationStatus : Type 0 where
  created approved cancelled rejected suspended : AccreditationStatus

-- `ORGANISATION_STATUS`
pub data OrganisationStatus : Type 0 where
  created approved active rejected : OrganisationStatus

-- `REGULATOR`
pub data Regulator : Type 0 where
  ea nrw sepa niea : Regulator

-- `MATERIAL`
pub data Material : Type 0 where
  aluminium fibre glass paper plastic steel wood : Material
