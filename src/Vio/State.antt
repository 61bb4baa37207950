-- ===== src/Vio/State.antt =====
-- The state of `SyntheticVioNode`, ros2_ws/src/perception/zed2i/src/synthetic_vio_node.cpp, and its
-- queue of delayed messages. A time is a number of nanoseconds, which `rclcpp::Time` refuses to be
-- negative; the seconds of a stamp and the milliseconds of a latency have 32 bits, so no sum of the
-- two leaves 63 bits. What is published is kept, oldest first.
use Prim.Native.String.{String}
use billee_software.Prelude.{ℕ, suc, ◌+◌, ◌-◌, ◌*◌, Bool, List, [], ◌∷◌, ◌++◌, leb, if◌then◌else◌}
use billee_software.Prelude.Int.{ℤ, pos, negsuc}
use billee_software.Vio.Geometry.{Quaternion}
use billee_software.Vio.Model.{NoiseModel, Settings}

pub record Point (D : Type 0) : Type 0 where
  pub x : D
  pub y : D
  pub z : D

-- The fields of `nav_msgs::msg::Odometry` that the node reads or writes.
pub record Odometry (D : Type 0) : Type 0 where
  pub stamp : ℕ
  pub frame_id : String
  pub child_frame_id : String
  pub position : Point D
  pub orientation : Quaternion D
  pub pose_covariance : List D
  pub twist_covariance : List D

pub record PendingMessage (D : Type 0) : Type 0 where
  pub release_time : ℕ
  pub message : Odometry D

pub record VioNode (D G : Type 0) : Type 0 where
  pub settings : Settings D
  pub model : NoiseModel D
  pub white_rng : G
  pub drift_rng : G
  pub fault_rng : G
  pub profile_rng : G
  pub translation_scale : D
  pub yaw_scale : D
  pub initialized : Bool
  pub initial_x : D
  pub initial_y : D
  pub initial_yaw : D
  pub previous_stamp : ℕ
  pub elapsed_seconds : D
  pub position_drift_x : D
  pub position_drift_y : D
  pub yaw_drift : D
  pub pending_messages : List (PendingMessage D)
  pub published : List (Odometry D)

-- What happens to the node: a true pose arrives, or the timer fires at a time of the clock.
pub data Event (D : Type 0) : Type 0 where
  sensed : Odometry D → Event D
  tick : ℕ → Event D

-- `stamp - previous`, signed.
abbrev pub minus : ℕ → ℕ → ℤ
minus a b = if leb b a then pos (a - b) else negsuc (b - a - 1)

-- `stamp + latency`. A negative latency does not pass the validation.
abbrev pub release : ℕ → ℤ → ℕ
release stamp (pos latency_ms) = stamp + latency_ms * 1000000
release stamp (negsuc n) = stamp - suc n * 1000000

-- What publishing has come to: the loop from the queue's front.
unfoldable pub take_due :
    {D : Type 0} → ℕ → List (PendingMessage D) → List (Odometry D) × List (PendingMessage D)
take_due time [] = ([], [])
take_due time (p ∷ ps) =
    let (sent, left) = take_due time ps in
    if leb p.release_time time then (p.message ∷ sent, left) else ([], p ∷ ps)

-- `publish_due_messages(time)`; the timer calls it with the clock's time.
unfoldable pub publish_due_messages : {D G : Type 0} → ℕ → VioNode D G → VioNode D G
unfolding take_due
publish_due_messages time s =
    let (sent, left) = take_due time s.pending_messages in
    record s { pending_messages = left; published = s.published ++ sent }

-- `pending_messages_.push_back`.
unfoldable pub enqueue : {D G : Type 0} → Odometry D → VioNode D G → VioNode D G
enqueue vio s = record s {
  pending_messages =
      s.pending_messages
      ++ record { release_time = release vio.stamp s.model.latency_ms; message = vio } ∷ [];
}
