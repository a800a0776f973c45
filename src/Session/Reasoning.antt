-- ===== src/Session/Reasoning.antt =====
-- A failed run whose reasoning may be kept from the client
-- (django_ag_ui/agent/agent_session.py and reasoning_filter.py).
