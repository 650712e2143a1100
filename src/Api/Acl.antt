-- ===== src/Api/Acl.antt =====
-- The ValkeyACL resource: api/v1beta1/valkeyacl_types.go. Of the conditions only Available is kept,
-- which is the one that the controller sets.
use wellcake.Common.{ℕ, Bytes, Option, Bool, List}
use wellcake.Api.{SecretKeyReference}

pub record AclUser : Type 0 where
  pub name : Bytes
  pub password_secret : Option SecretKeyReference
  pub rules : Bytes

pub record AclSpec : Type 0 where
  pub cluster_ref : Bytes
  pub users : List AclUser

pub record AclStatus : Type 0 where
  pub applied_users : List Bytes
  pub observed_generation : ℕ
  pub available : Bool
  pub reason : Bytes

pub record ValkeyAcl : Type 0 where
  pub name : Bytes
  pub namespace : Bytes
  pub generation : ℕ
  pub spec : AclSpec
  pub status : AclStatus
