-- ===== src/Pipeline/Judge/Belonging.antt =====
-- The judgment delivers no address that was judged as not belonging to the business.
