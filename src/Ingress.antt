-- ===== src/Ingress.antt =====
-- src/ingress/: the Kubernetes ingress controller.
pub mod Leader
