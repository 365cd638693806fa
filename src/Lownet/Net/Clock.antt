-- ===== src/Lownet/Net/Clock.antt =====
-- The network clock between two synchronisations.
use tol103m_assignment_p.Lownet.Time.{Time}
use tol103m_assignment_p.Lownet.Net.{Net}
