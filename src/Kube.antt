-- ===== src/Kube.antt =====
-- internal/kube: what the portal reads of a pod. The API server is a parameter of what calls it.
pub mod Digits
pub mod Pods
pub mod Images
pub mod Picking
pub mod Running
pub mod Restarts
pub mod Deduplication
pub mod Rollouts
pub mod Diagnosis
use devops_tools.Prelude.{ℕ, Text, Bool, Option, List, Dict}

-- A container's state: `waiting` is the reason, if it waits. `restarts` is an int32, as its bit
-- pattern.
pub record ContainerStatus : Type 0 where
  pub ready : Bool
  pub restarts : ℕ
  pub image : Text
  pub waiting : Option Text

pub record Container : Type 0 where
  pub name : Text
  pub image : Text

pub record Condition : Type 0 where
  pub kind : Text
  pub status : Text
  pub reason : Text

-- The controller of an object, of metav1.GetControllerOf.
pub record Owner : Type 0 where
  pub kind : Text
  pub name : Text

-- Times are nanoseconds. `terminating` tells whether there is a deletion timestamp.
pub record Pod : Type 0 where
  pub name : Text
  pub phase : Text
  pub node : Text
  pub created : ℕ
  pub terminating : Bool
  pub labels : Dict Text
  pub annotations : Dict Text
  pub statuses : List ContainerStatus
  pub containers : List Container
  pub conditions : List Condition
  pub owner : Option Owner
